-- ===== src/Academics/Calendar.antt =====
-- backend/apps/academics/services/calendar.py, with the dates of `Semester` of
-- backend/apps/academics/models.py. Times and dates are numbers; the present is an argument.
use uni_acmis.Prelude.{
  ℕ, String, Option, none, some, Bool, false, ◌&&◌, not, List, leb, ltb, ◌==◌, find_first, Result,
  ok, err, ◌>>=◌, ◌>>◌, raise_if,
}

pub record Semester : Type 0 where
  pub id : ℕ
  pub name : String
  pub academic_year : ℕ
  pub teaching_end : ℕ
  pub exam_start : Option ℕ
  pub exam_end : Option ℕ
  pub registration_opens : Option ℕ
  pub registration_closes : Option ℕ
  pub add_drop_closes : Option ℕ
  pub is_current : Bool

pub data CalendarError : Type 0 where
  no_current_semester semester_not_found window_closed : CalendarError

unfoldable pub current_semester : List Semester → Option Semester
current_semester semesters = find_first (λ s. s.is_current) semesters

unfoldable pub get_semester : List Semester → ℕ → Result CalendarError Semester
get_semester semesters semester_id = elim (find_first (λ s. s.id == semester_id) semesters) [
  | some s ↦ ok s
  | none ↦ err semester_not_found
]

unfoldable pub require_current_semester : List Semester → Result CalendarError Semester
require_current_semester semesters = elim (current_semester semesters) [
  | some s ↦ ok s
  | none ↦ err no_current_semester
]

-- `semester or current_semester()`
unfoldable pub semester_or_current : List Semester → Option Semester → Option Semester
semester_or_current semesters (some s) = some s
semester_or_current semesters none = current_semester semesters

-- whether a time lies in a window, which an unset end closes
unfoldable pub in_window : Option ℕ → Option ℕ → ℕ → Bool
in_window (some opens) (some closes) now = leb opens now && leb now closes
in_window (some opens) none now = false
in_window none closes now = false

unfoldable pub is_registration_open : List Semester → Option Semester → ℕ → Bool
is_registration_open semesters semester now = elim (semester_or_current semesters semester) [
  | none ↦ false
  | some s ↦ in_window s.registration_opens s.registration_closes now
]

-- the two tests of `is_add_drop_open` on its dates
unfoldable pub before_deadline : Option ℕ → Option ℕ → ℕ → Bool
before_deadline opens none now = false
before_deadline none (some closes) now = leb now closes
before_deadline (some opens) (some closes) now = not (ltb now opens) && leb now closes

unfoldable pub is_add_drop_open : List Semester → Option Semester → ℕ → Bool
is_add_drop_open semesters semester now = elim (semester_or_current semesters semester) [
  | none ↦ false
  | some s ↦ before_deadline s.registration_opens s.add_drop_closes now
]

-- `today` is the date of the present
unfoldable pub is_exam_period : List Semester → Option Semester → ℕ → Bool
is_exam_period semesters semester today = elim (semester_or_current semesters semester) [
  | none ↦ false
  | some s ↦ in_window s.exam_start s.exam_end today
]

unfoldable pub require_registration_open :
    List Semester → Option Semester → ℕ → Result CalendarError Semester
require_registration_open semesters semester now = do
  s ← elim semester [ some s ↦ ok s | none ↦ require_current_semester semesters ]
  raise_if (not (is_registration_open semesters (some s) now)) window_closed
  ok s
