-- ===== src/Form.antt =====
-- What an approved form does: the validators of its executors.
pub mod Period
pub mod Clock
pub mod Values
pub mod Rows
pub mod Visible
pub mod Response
mod Tests
