-- ===== src/Auth/Laws.antt =====
-- What the provider promises to the routes.
mod Cases
pub mod Genuine
pub mod Startup
pub mod Signing
pub mod Throttle
pub mod Permission
