-- ===== src/Client.antt =====
-- web/src/lib/apiClient.ts: the one HTTP client of the console.
pub mod Json
pub mod Cookie
pub mod Request
pub mod Laws
mod Tests
