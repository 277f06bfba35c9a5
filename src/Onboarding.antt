-- ===== src/Onboarding.antt =====
-- The onboarding of organizations: the form schemas and the wizard.
pub mod Schema
pub mod Schemas
pub mod Form
pub mod Wizard
pub mod Laws
mod Tests
