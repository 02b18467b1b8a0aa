-- ===== src/Workflow.antt =====
-- Workflows of asoud_erp: their design, its activation, their start and the engine that runs them.
pub mod Design
pub mod Graph
pub mod Activation
pub mod History
pub mod Condition
pub mod Response
pub mod Automatic
pub mod Runtime
pub mod Start
pub mod Policy
mod Tests
