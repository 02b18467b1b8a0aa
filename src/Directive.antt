-- ===== src/Directive.antt =====
-- The lists of directives, page by page.
pub mod Paging
mod Tests
