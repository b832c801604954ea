-- ===== src/Examples/Registrations.antt =====
-- Runs of registration, with a hold and an override.
use native.Mathlib.Omega.{arith}
use uni_acmis.Prelude.{
  next, done, ℕ, ◌+◌, ◌≤◌, ◌≡◌, ◌⊎◌, ◌↔◌, refl, none, some, true, false, [], ◌∷◌, ok, err,
  UniqueKeys, All, is_blank,
}
use uni_acmis.Core.Holds.{
  HoldProvider, blocking_holds, collect_holds, ask, answer, failed_check, is_clear,
}
use uni_acmis.Core.Holds.FailSafe.{is_clear_iff, Clears}
use uni_acmis.Academics.Calendar.{
  Semester, is_registration_open, require_registration_open, get_semester, in_window,
  semester_or_current,
}
use uni_acmis.Curriculum.{
  unmet_prerequisites, check_links, check_link, achieved_in, check_grade, total_credits,
  credit_limits,
}
use uni_acmis.Enrollment.{
  CourseRegistration, registered, completed, Catalogue, Actor, reg_id, register_course,
  resolve_semester, find_existing, check_existing, get_programme_id, passed_course_ids,
  active_credit_load, credit_hours, is_active, is_excluded, limits_for, check_holds, can_override,
  actor_pk, pk_of, check_repeat, start_row, note_override, new_registration, save,
}
use uni_acmis.Enrollment.Register.{register_course_sound}
use uni_acmis.Enrollment.Steps.{registers, load_stays-WithinLimits}
use uni_acmis.Enrollment.Limits.{WithinLimits}

-- a provider that fails
abbrev finance : HoldProvider
finance = record { source = "finance"; holds_for = λ _. err "timeout" }

abbrev registry : HoldProvider
registry = record { source = "registry"; holds_for = λ _. ok [] }

is_clear_iff_example :
    is_clear (registry ∷ finance ∷ []) 9 ≡ true ↔ All (Clears 9) (registry ∷ finance ∷ [])
is_clear_iff_example = is_clear_iff (registry ∷ finance ∷ []) 9

abbrev first_semester : Semester
first_semester = record {
  id = 2;
  name = "Semester 1";
  exam_start = none;
  exam_end = none;
  registration_opens = some 100;
  registration_closes = some 200;
  add_drop_closes = some 220;
  is_current = true;
  academic_year = 1;
  teaching_end = 95;
}

abbrev campus : Catalogue
campus = record {
  semesters = first_semester ∷ [];
  courses =
      record { id = 7; code = "MAT201"; credit_hours = 4 }
      ∷ record { id = 6; code = "MAT101"; credit_hours = 3 }
      ∷ [];
  programmes =
      record {
        id = 3;
        department = 1;
        code = "CIV";
        duration_years = 4;
        total_credits_required = 130;
        min_credits_per_semester = 3;
        max_credits_per_semester = 4;
      }
      ∷ [];
  prerequisites =
      record {
        course = 7;
        required_course = 6;
        minimum_grade_point = some 200;
        is_concurrent_allowed = false;
      }
      ∷ [];
  students = (9, 3) ∷ [];
  hold_providers = finance ∷ [];
}

abbrev registrar : Actor
registrar = record { pk = some 1; override_hold = true }

abbrev passed_before : CourseRegistration
passed_before = record {
  id = 1;
  student = 9;
  course = 6;
  semester = 1;
  status = completed;
  is_repeat = false;
  registered_by = none;
  dropped_at = none;
  drop_reason = "";
  hold_override_by = none;
  override_reason = "";
  completed_by = none;
  completed_at = some 50;
}

abbrev pub made : CourseRegistration
made = record {
  id = 2;
  student = 9;
  course = 7;
  semester = 2;
  status = registered;
  is_repeat = false;
  registered_by = some 1;
  dropped_at = none;
  drop_reason = "";
  hold_override_by = some 1;
  override_reason = "Paid in cash";
  completed_by = none;
  completed_at = none;
}

registration_made :
    register_course campus 150 (passed_before ∷ []) 9 7 none (some registrar) "Paid in cash"
    ≡ ok (made ∷ passed_before ∷ [], made)
unfolding register_course resolve_semester require_registration_open is_registration_open in_window
    semester_or_current find_existing check_existing get_programme_id passed_course_ids
    unmet_prerequisites check_links check_link achieved_in check_grade total_credits credit_limits
    limits_for active_credit_load credit_hours is_active is_excluded blocking_holds collect_holds
    ask answer failed_check check_holds can_override is_blank check_repeat start_row note_override
    new_registration save uni_acmis.Academics.Calendar.require_current_semester
    uni_acmis.Academics.Calendar.current_semester
registration_made = refl

register_course_sound_example :
    (semester : Semester) × (programme : ℕ) × (limits : ℕ × ℕ) × (resolve_semester campus.semesters
        none
      ≡ ok semester)
    × (made.semester ≡ semester.id)
    × (is_registration_open campus.semesters (some semester) 150 ≡ true)
    × (unmet_prerequisites campus.prerequisites
          (7 ∷ [])
          (passed_course_ids (passed_before ∷ []) 9)
          []
        ≡ [])
    × (get_programme_id campus.students 9 ≡ ok programme)
    × (limits_for campus.programmes programme ≡ ok limits)
    × (active_credit_load campus.courses
            (passed_before ∷ [])
            9
            semester.id
            (pk_of (find_existing (passed_before ∷ []) 9 7 semester.id))
          + total_credits campus.courses (7 ∷ [])
        ≤ limits.1)
    × ((blocking_holds campus.hold_providers 9 ≡ [])
        ⊎ ((can_override (some registrar) "Paid in cash" ≡ true)
            × (made.hold_override_by ≡ actor_pk (some registrar))
            × (made.override_reason ≡ "Paid in cash")))
register_course_sound_example =
    register_course_sound campus 150 (passed_before ∷ []) 9 7 none (some registrar) "Paid in cash"
      (made ∷ passed_before ∷ []) made registration_made

unique_keys : UniqueKeys reg_id (passed_before ∷ [])
unique_keys k = ground arith

within_limits : WithinLimits campus (passed_before ∷ [])
unfolding active_credit_load is_active is_excluded
within_limits s m p l e f = ground arith

load_stays-WithinLimits_example : WithinLimits campus (made ∷ passed_before ∷ [])
load_stays-WithinLimits_example =
    load_stays-WithinLimits campus (passed_before ∷ []) (made ∷ passed_before ∷ []) unique_keys
      within_limits
      (next (registers 150 9 7 none (some registrar) "Paid in cash" made registration_made) done)
