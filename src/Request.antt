-- ===== src/Request.antt =====
-- The rules of workflow requests: their status, their execution, and voiding what they created.
pub mod Status
pub mod Execution
pub mod Void
mod Tests
