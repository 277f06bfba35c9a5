-- ===== src/Admin/Store.antt =====
-- The methods of the class `AdminStore`, by the kind of object that they change.
pub mod Organizations
pub mod Users
pub mod Devices
pub mod Plans
pub mod Security
pub mod Iam
pub mod Platform
pub mod Settings
pub mod Metrics
