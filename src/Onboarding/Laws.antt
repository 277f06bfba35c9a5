-- ===== src/Onboarding/Laws.antt =====
-- What holds of the wizard.
pub mod Fields
pub mod Steps
pub mod Activation
pub mod Sizes
