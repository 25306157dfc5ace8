-- ===== src/Strategy.antt =====
-- internal/strategy: the strategy language, its rules and the tape that they are read from.
pub mod Spec
pub mod Eval
pub mod Plan
pub mod Syntax
pub mod Compile
pub mod Tape
pub mod Kleene
pub mod Information
pub mod Lookback
