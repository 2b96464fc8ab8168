-- ===== src/Examples.antt =====
-- A concrete instance of the third-party crates, and the theorems at concrete inputs.
pub mod Demo
pub mod Slots
pub mod EngineRuns
mod EngineWitnesses
pub mod Services
mod LeaseWitnesses
mod PipelineWitnesses
pub mod Tests
mod ServiceWitnesses
mod ErrorWitnesses
pub mod Channels
mod ClientWitnesses
mod ClusterWitnesses
mod BookWitnesses
mod StreamWitnesses
