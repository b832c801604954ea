-- ===== src/Admissions.antt =====
-- Admissions (backend/apps/admissions).
pub mod MeritList
pub mod Applications
pub mod Shortlist
pub mod Eligibility
