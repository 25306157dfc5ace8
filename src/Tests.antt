-- ===== src/Tests.antt =====
-- Small runs on which every theorem is applied.
pub mod Sample
pub mod Zones
pub mod Strategies
pub mod Runs
pub mod Markets
pub mod Indicators
pub mod Compiles
pub mod Folding
pub mod Calendars
