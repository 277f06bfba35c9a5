-- ===== src/SignIn.antt =====
-- The pages that sign a person in: web/src/pages/super, web/src/pages/LoginPage.tsx and
-- web/src/pages/app/CustomerMfaPages.tsx.
pub mod Factors
pub mod Common
pub mod Staff
pub mod StaffActions
pub mod Customer
pub mod Challenge
pub mod Enrolment
pub mod Registration
pub mod Laws
mod Tests
