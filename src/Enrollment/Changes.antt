-- ===== src/Enrollment/Changes.antt =====
-- Drops and recorded completions of registrations.
use uni_acmis.Prelude.{
  ℕ, String, Option, some, not, update_row, if◌then◌else◌, is_blank, Result, ok, ◌>>=◌, ◌>>◌,
  raise_if,
}
use uni_acmis.Academics.Calendar.{get_semester, is_add_drop_open}
use uni_acmis.Enrollment.{
  dropped, completed, CourseRegistration, Actor, EnrollmentError, registration_not_open,
  reason_required, Catalogue, Registrations, reg_id, is_registered, is_completed, lift_calendar,
  actor_pk,
}

unfoldable pub drop_course :
    Catalogue
    → (now : ℕ) → Registrations
    → CourseRegistration
    → String
    → Result EnrollmentError (Registrations × CourseRegistration)
drop_course db now rows registration reason = do
  raise_if (is_blank reason) reason_required
  raise_if (not (is_registered registration.status)) registration_not_open
  semester ← lift_calendar (get_semester db.semesters registration.semester)
  raise_if (not (is_add_drop_open db.semesters (some semester) now)) registration_not_open
  let registration = record registration {
    status = dropped;
    dropped_at = some now;
    drop_reason = reason;
  }
  ok (update_row reg_id registration rows, registration)

unfoldable pub record_prior_completion :
    (now : ℕ)
    → Registrations
    → CourseRegistration
    → Option Actor
    → String
    → Result EnrollmentError (Registrations × CourseRegistration)
record_prior_completion now rows registration actor reason = do
  raise_if (is_blank reason) reason_required
  if is_completed registration.status
      then ok (rows, registration)
      else (let r = record registration {
        status = completed;
        completed_by = actor_pk actor;
        completed_at = some now;
      } in
          ok (update_row reg_id r rows, r))
