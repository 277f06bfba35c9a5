-- ===== src/Admin.antt =====
-- The administration data of the super-admin portal.
pub mod Types
pub mod State
pub mod Store
pub mod Seed
pub mod Service
pub mod Laws
mod Tests
