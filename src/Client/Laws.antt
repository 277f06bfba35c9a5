-- ===== src/Client/Laws.antt =====
-- The behaviour of `request` on every branch, and of the look-up of the CSRF cookie.
pub mod Branches
pub mod CookieJar
