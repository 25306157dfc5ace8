-- ===== src/Market.antt =====
-- internal/market: bars, timeframes and what is read of the stored market data.
pub mod Bar
pub mod Page
pub mod Resample
pub mod Calendar
pub mod Gaps
