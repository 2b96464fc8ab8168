-- ===== src/Api.antt =====
-- The service around the engine: crates/clob-api.
pub mod Health
pub mod Kafka
pub mod Leader
pub mod Fills
pub mod Threads
pub mod Orders
pub mod Consumer
pub mod Ingest
pub mod Store
pub mod Broadcast
pub mod Clients
pub mod Fanout
pub mod Markets
pub mod Metrics
pub mod Modes
pub mod App
pub mod Producers
pub mod Service
pub mod Standby
pub mod Settings
