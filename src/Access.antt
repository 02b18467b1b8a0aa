-- ===== src/Access.antt =====
-- Who may hand out roles, and who must keep theirs.
pub mod Delegation
pub mod Admin
pub mod Request
mod Tests
