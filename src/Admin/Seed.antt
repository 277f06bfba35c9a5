-- ===== src/Admin/Seed.antt =====
-- web/src/mock/adminMockData.ts, object by object.
pub mod Organizations
pub mod Users
pub mod Devices
pub mod Plans
pub mod Events
pub mod Incidents
pub mod Iam
pub mod Permissions
pub mod Access
pub mod Audit
pub mod Platform
pub mod Settings
pub mod Initial
