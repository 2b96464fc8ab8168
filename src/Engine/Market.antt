-- ===== src/Engine/Market.antt =====
-- The fills and the books of the engine, by the sweep that an order stands for.
pub mod Trades
pub mod Fills
pub mod Ledger
pub mod Processed
pub mod Properties
pub mod Sorted
pub mod Crossing
pub mod Uncrossed
pub mod Arrivals
pub mod Reachable
pub mod Cancellable
pub mod Errors
pub mod Depth
