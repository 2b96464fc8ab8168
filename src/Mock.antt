-- ===== src/Mock.antt =====
-- The mock of the Yellowstone server, in crates/yellowstone-mock.
pub mod Config
pub mod Server
pub mod Rate
pub mod Orders
