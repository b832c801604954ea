-- ===== src/Academics.antt =====
-- The academic structure: the grading scale, the grade computation and the calendar
-- (backend/apps/academics).
pub mod Bands
pub mod Grading
pub mod Calendar
