-- ===== src/Engine/Refine.antt =====
-- The engine of matching.rs and orderbook.rs beside the market of Spec.
pub mod Order
pub mod Levels
pub mod Amounts
pub mod Resolve
pub mod Holds
pub mod Complete
pub mod Covers
pub mod Unlink
pub mod Drop
pub mod Step
pub mod Trade
pub mod Traded
pub mod Loop
pub mod Sweep
pub mod Insert
pub mod Models
pub mod Struck
pub mod Cancel
pub mod Keeps
pub mod Process
pub mod Indexed
