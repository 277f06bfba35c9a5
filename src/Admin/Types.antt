-- ===== src/Admin/Types.antt =====
-- web/src/types/admin.ts: the data that the administration store keeps.
pub mod Enums
pub mod Tenant
pub mod Security
pub mod Iam
pub mod Partial
pub mod Platform
pub mod Spread
