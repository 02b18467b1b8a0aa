-- ===== src/Workflow/Runtime.antt =====
-- asoud_erp/api/v1/workflow_runtime.py: the engine that runs an activated design.
pub mod Route
pub mod Assign
pub mod State
pub mod Lookup
pub mod Activate
pub mod Complete
pub mod Progress
pub mod Cycle
pub mod Depth
pub mod Duty
pub mod Permit
pub mod Deadlines
pub mod Launch
pub mod Draft
mod Tests
