-- ===== src/Account/Laws.antt =====
-- What holds of the page.
pub mod Errors
pub mod Guards
pub mod Sessions
