-- ===== src/Enrollment/Lookups.antt =====
-- What registration answers to other modules, and the credit summary of a student.
use uni_acmis.Prelude.{
  ℕ, Option, none, some, Bool, ◌&&◌, List, map, keep, get, leb, ◌==◌, Result, ok, ◌>>=◌,
}
use uni_acmis.Enrollment.{
  EnrollmentError, Catalogue, Registrations, reg_id, is_registered, get_programme_id,
  active_credit_load, limits_for,
}

unfoldable pub active_registration_ids : Registrations → (course_id semester_id : ℕ) → List ℕ
active_registration_ids rows course_id semester_id = map reg_id (
    keep (λ r. (r.course == course_id) && (r.semester == semester_id) && is_registered r.status)
      rows)

unfoldable pub course_id_for_registration : Registrations → ℕ → Option ℕ
course_id_for_registration rows registration_id = elim (get reg_id registration_id rows) [
  | some r ↦ some r.course
  | none ↦ none
]

unfoldable pub student_id_for_registration : Registrations → ℕ → Option ℕ
student_id_for_registration rows registration_id = elim (get reg_id registration_id rows) [
  | some r ↦ some r.student
  | none ↦ none
]

unfoldable pub registrations_for_student :
    Registrations → (student_id semester_id : ℕ) → Registrations
registrations_for_student rows student_id semester_id =
    keep (λ r. (r.student == student_id) && (r.semester == semester_id)) rows

pub record CreditSummary : Type 0 where
  pub registered_credits : ℕ
  pub min_credits : ℕ
  pub max_credits : ℕ
  pub meets_minimum : Bool

unfoldable pub credit_summary :
    Catalogue → Registrations → ℕ → ℕ → Result EnrollmentError CreditSummary
credit_summary db rows student_id semester_id = do
  programme_id ← get_programme_id db.students student_id
  limits ← limits_for db.programmes programme_id
  let load = active_credit_load db.courses rows student_id semester_id none
  ok record {
    registered_credits = load;
    min_credits = limits.0;
    max_credits = limits.1;
    meets_minimum = leb limits.0 load;
  }
