-- ===== src/Personnel.antt =====
-- The documents of the personnel: orders that HR issues, with or without a workflow.
pub mod Lifecycle
pub mod Order
pub mod Salary
mod Tests
