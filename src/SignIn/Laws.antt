-- ===== src/SignIn/Laws.antt =====
-- What holds of the pages that sign a person in.
pub mod Offers
pub mod Admission
pub mod Enrolments
pub mod Forms
pub mod Journey
pub mod Lockouts
pub mod Passwords
pub mod Privacy
pub mod Enrolling
