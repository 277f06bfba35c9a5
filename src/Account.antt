-- ===== src/Account.antt =====
-- The page on the security of one's own account.
pub mod Page
pub mod Requests
pub mod Laws
mod Tests
