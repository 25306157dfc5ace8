-- ===== src/Backtest.antt =====
-- internal/backtest: the engine that runs a compiled plan over bars, and its books.
pub mod Broker
pub mod Actions
pub mod Book
pub mod Sizing
pub mod Engine
pub mod Orders
pub mod Run
pub mod Ledger
pub mod Place
pub mod Closing
pub mod Basket
pub mod Tally
