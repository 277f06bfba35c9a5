-- ===== src/Auth.antt =====
-- web/src/auth: who is signed in, what is asked at the start, and what a route shows.
pub mod State
pub mod Provider
pub mod Gate
pub mod Actions
pub mod Idle
pub mod Laws
mod Tests
