-- ===== src/Engine.antt =====
-- crates/clob-engine.
pub mod Types
pub mod Levels
pub mod Book
pub mod Matching
pub mod Process
pub mod Spec
pub mod Refine
pub mod Market
pub mod Snapshot
