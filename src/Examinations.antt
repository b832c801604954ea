-- ===== src/Examinations.antt =====
-- Examinations and results (backend/apps/examinations).
pub mod Assessments
pub mod Marks
pub mod Results
pub mod Approval
pub mod Appeals
