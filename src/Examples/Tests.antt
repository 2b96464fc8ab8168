-- ===== src/Examples/Tests.antt =====
-- The repository's own unit tests, run on the model: each test is a Boolean, at the crates of Demo
-- and with a given id in place of each random one.
pub mod Base
mod Matching
mod Invariants
pub mod Books
mod Snapshots
mod Orders
