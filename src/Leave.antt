-- ===== src/Leave.antt =====
-- Leave by the hour.
pub mod Hours
mod Tests
