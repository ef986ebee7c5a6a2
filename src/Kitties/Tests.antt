-- ===== src/Kitties/Tests.antt =====
-- A storage for the examples, and calls on it by evaluation.
mod Examples
mod Runs
pub use Market.*
mod Market
mod Setups
mod Errors
mod History
mod Trades
