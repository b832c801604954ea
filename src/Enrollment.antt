-- ===== src/Enrollment.antt =====
-- backend/apps/enrollment/services.py, on the rows of backend/apps/enrollment/models.py. The table of
-- registrations is a list, newest first, as its `Meta.ordering` has it.
pub mod Register
pub mod Limits
pub mod Steps
pub mod Lookups
pub mod Changes
use uni_acmis.Prelude.{
  ℕ, ◌+◌, String, Option, none, some, Bool, true, false, ◌&&◌, not, is_none, List, [], ◌∷◌, map,
  keep, any, find_first, sum_by, next_key, update_row, get, ltb, leb, ◌==◌, if◌then◌else◌, is_blank,
  Result, ok, err, ◌>>=◌, ◌>>◌, raise_if,
}
use uni_acmis.Core.Holds.{Hold, HoldProvider, blocking_holds}
use uni_acmis.Academics.Calendar.{
  Semester, CalendarError, get_semester, require_current_semester, require_registration_open,
  is_add_drop_open,
}
use uni_acmis.Curriculum.{
  Course, Programme, Prerequisite, UnmetPrerequisite, unmet_prerequisites, total_credits,
  credit_limits,
}

pub data RegistrationStatus : Type 0 where
  registered dropped completed : RegistrationStatus

pub record CourseRegistration : Type 0 where
  pub id : ℕ
  pub student : ℕ
  pub course : ℕ
  pub semester : ℕ
  pub status : RegistrationStatus
  pub is_repeat : Bool
  pub registered_by : Option ℕ
  pub dropped_at : Option ℕ
  pub drop_reason : String
  pub hold_override_by : Option ℕ
  pub override_reason : String
  pub completed_by : Option ℕ
  pub completed_at : Option ℕ

-- who calls: the key, none for the anonymous user, and whether `enrollment.override_hold` is granted
pub record Actor : Type 0 where
  pub pk : Option ℕ
  pub override_hold : Bool

pub data EnrollmentError : Type 0 where
  calendar_error : CalendarError → EnrollmentError
  already_registered : ℕ → EnrollmentError
  registration_not_open reason_required student_not_found programme_not_found : EnrollmentError
  invalid_course : EnrollmentError
  prerequisite_not_met : List UnmetPrerequisite → EnrollmentError
  credit_limit_exceeded : (max_credits would_be : ℕ) → EnrollmentError
  blocked_by_hold : List Hold → EnrollmentError

-- the tables that registration reads and does not change
pub record Catalogue : Type 0 where
  pub semesters : List Semester
  pub courses : List Course
  pub programmes : List Programme
  pub prerequisites : List Prerequisite
  pub students : List (ℕ × ℕ)
  pub hold_providers : List HoldProvider

abbrev pub Registrations : Type 0
Registrations = List CourseRegistration

abbrev pub reg_id : CourseRegistration → ℕ
reg_id r = r.id

abbrev pub is_registered : RegistrationStatus → Bool
is_registered registered = true
is_registered dropped = false
is_registered completed = false

abbrev pub is_completed : RegistrationStatus → Bool
is_completed registered = false
is_completed dropped = false
is_completed completed = true

abbrev pub lift_calendar : {A : Type 0} → Result CalendarError A → Result EnrollmentError A
lift_calendar (ok a) = ok a
lift_calendar (err e) = err (calendar_error e)

unfoldable pub resolve_semester : List Semester → Option ℕ → Result CalendarError Semester
resolve_semester semesters (some semester_id) = get_semester semesters semester_id
resolve_semester semesters none = require_current_semester semesters

-- `registry.services.get_programme_id`; the rows are pairs of a student and a programme
unfoldable pub get_programme_id : List (ℕ × ℕ) → ℕ → Result EnrollmentError ℕ
get_programme_id students student_id = elim (find_first (λ s. s.0 == student_id) students) [
  | some s ↦ ok s.1
  | none ↦ err student_not_found
]

unfoldable pub passed_course_ids : Registrations → ℕ → List (ℕ × Option ℕ)
passed_course_ids rows student_id =
    map (λ r. (r.course, none))
      (keep (λ r. (r.student == student_id) && is_completed r.status) rows)

-- `registration.course.credit_hours`
unfoldable pub credit_hours : List Course → ℕ → ℕ
credit_hours courses course_id = elim (get (λ c. c.id) course_id courses) [
  | some c ↦ c.credit_hours
  | none ↦ 0
]

-- whether a row is of a student's active load
unfoldable pub is_active : ℕ → ℕ → CourseRegistration → Bool
is_active student_id semester_id r =
    (r.student == student_id) && (r.semester == semester_id) && is_registered r.status

-- `queryset.exclude(pk=exclude_pk)`, where a key is given
unfoldable pub is_excluded : Option ℕ → CourseRegistration → Bool
is_excluded none r = false
is_excluded (some k) r = r.id == k

unfoldable pub active_credit_load : List Course → Registrations → ℕ → ℕ → Option ℕ → ℕ
active_credit_load courses rows student_id semester_id exclude =
    sum_by (λ r. credit_hours courses r.course)
      (keep (λ r. is_active student_id semester_id r && not (is_excluded exclude r)) rows)

abbrev pub pk_of : Option CourseRegistration → Option ℕ
pk_of none = none
pk_of (some r) = some r.id

unfoldable pub find_existing : Registrations → ℕ → ℕ → ℕ → Option CourseRegistration
find_existing rows student_id course_id semester_id =
    find_first
      (λ r. (r.student == student_id) && (r.course == course_id) && (r.semester == semester_id))
      rows

-- the two refusals of an existing row
unfoldable pub check_existing : Option CourseRegistration → Result EnrollmentError (Unit {0})
check_existing none = ok tt
check_existing (some r) = elim r.status [
  | registered ↦ err (already_registered r.id)
  | completed ↦ err registration_not_open
  | dropped ↦ ok tt
]

abbrev pub is_empty : {A : Type 0} → List A → Bool
is_empty [] = true
is_empty (_ ∷ _) = false

-- `actor.pk`, where there is one
abbrev pub actor_pk : Option Actor → Option ℕ
actor_pk none = none
actor_pk (some a) = a.pk

abbrev pub may_override : Option Actor → Bool
may_override none = false
may_override (some a) = a.override_hold

unfoldable pub can_override : Option Actor → String → Bool
can_override actor override_reason = not (is_blank override_reason) && may_override actor

unfoldable pub check_holds : List Hold → Option Actor → String → Result EnrollmentError (Unit {0})
check_holds [] actor override_reason = ok tt
check_holds (h ∷ hs) actor override_reason =
    raise_if (not (can_override actor override_reason)) (blocked_by_hold (h ∷ hs))

unfoldable pub check_repeat : Registrations → ℕ → ℕ → Option ℕ → Bool
check_repeat rows student_id course_id exclude =
    any (λ r. (r.student == student_id) && (r.course == course_id) && not (is_excluded exclude r))
      rows

-- the row that is saved over an existing one, or that a new one starts from
unfoldable pub start_row :
    Registrations → Option CourseRegistration → ℕ → ℕ → ℕ → CourseRegistration
start_row rows (some r) student_id course_id semester_id = record r {
  status = registered;
  dropped_at = none;
}
start_row rows none student_id course_id semester_id = record {
  id = next_key reg_id rows;
  student = student_id;
  course = course_id;
  semester = semester_id;
  status = registered;
  is_repeat = false;
  registered_by = none;
  dropped_at = none;
  drop_reason = "";
  hold_override_by = none;
  override_reason = "";
  completed_by = none;
  completed_at = none;
}

-- the fields of an override, which are set when a hold blocks
unfoldable pub note_override :
    List Hold → Option Actor → String → CourseRegistration → CourseRegistration
note_override [] actor override_reason r = r
note_override (_ ∷ _) actor override_reason r = record r {
  hold_override_by = actor_pk actor;
  override_reason = override_reason;
}

-- the row that `register_course` saves
unfoldable pub new_registration :
    Registrations
    → Option CourseRegistration
    → List Hold
    → (student_id course_id semester_id : ℕ) → Option Actor
    → String
    → CourseRegistration
new_registration rows existing blocking student_id course_id semester_id actor override_reason =
    note_override blocking actor override_reason
      (record (start_row rows existing student_id course_id semester_id) {
        is_repeat = check_repeat rows student_id course_id (pk_of existing);
        registered_by = actor_pk actor;
      })

-- `credit_limits`, which raises for a programme that is not there
unfoldable pub limits_for : List Programme → ℕ → Result EnrollmentError (ℕ × ℕ)
limits_for programmes programme_id = elim (credit_limits programmes programme_id) [
  | some l ↦ ok l
  | none ↦ err programme_not_found
]

unfoldable pub save : Option CourseRegistration → CourseRegistration → Registrations → Registrations
save none r rows = r ∷ rows
save (some _) r rows = update_row reg_id r rows

unfoldable pub register_course :
    Catalogue
    → (now : ℕ) → Registrations
    → (student_id course_id : ℕ) → Option ℕ
    → Option Actor
    → String
    → Result EnrollmentError (Registrations × CourseRegistration)
register_course db now rows student_id course_id semester_id actor override_reason = do
  resolved ← lift_calendar (resolve_semester db.semesters semester_id)
  semester ← lift_calendar (require_registration_open db.semesters (some resolved) now)
  let existing = find_existing rows student_id course_id semester.id
  check_existing existing
  let course_credit_hours = total_credits db.courses (course_id ∷ [])
  programme_id ← get_programme_id db.students student_id
  let unmet =
      unmet_prerequisites db.prerequisites (course_id ∷ []) (passed_course_ids rows student_id) []
  raise_if (not (is_empty unmet)) (prerequisite_not_met unmet)
  limits ← limits_for db.programmes programme_id
  let projected_load =
      active_credit_load db.courses rows student_id semester.id (pk_of existing)
      + course_credit_hours
  raise_if (ltb limits.1 projected_load) (credit_limit_exceeded limits.1 projected_load)
  let blocking = blocking_holds db.hold_providers student_id
  check_holds blocking actor override_reason
  let registration =
      new_registration rows existing blocking student_id course_id semester.id actor override_reason
  raise_if (is_none (get (λ c. c.id) course_id db.courses)) invalid_course
  ok (save existing registration rows, registration)
