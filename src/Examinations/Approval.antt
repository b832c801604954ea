-- ===== src/Examinations/Approval.antt =====
-- Result approval and what a student is shown: backend/apps/examinations/services.py, with
-- `ResultApproval` of backend/apps/examinations/models.py.
pub mod Signed
pub mod Guard
use uni_acmis.Prelude.{
  ℕ, String, Option, none, some, Bool, true, false, ◌&&◌, not, is_none, or_else, List, [], ◌∷◌,
  ◌++◌, map, find_first, next_key, update_row, ◌==◌, if◌then◌else◌, is_blank, Result, ok, err,
  ◌>>=◌, ◌>>◌, raise_if,
}
use uni_acmis.Core.Holds.{Hold, HoldProvider, blocking_holds}
use uni_acmis.Enrollment.{CourseRegistration, EnrollmentError, get_programme_id}
use uni_acmis.Examinations.Results.{CourseResult}

pub data ApprovalStatus : Type 0 where
  pending approved rejected published : ApprovalStatus

pub record ResultApproval : Type 0 where
  pub id : ℕ
  pub semester : ℕ
  pub programme : Option ℕ
  pub status : ApprovalStatus
  pub approved_by : Option ℕ
  pub approved_at : Option ℕ
  pub approval_notes : String
  pub published_by : Option ℕ
  pub published_at : Option ℕ

pub data ApprovalError : Type 0 where
  invalid_approval_transition : ApprovalStatus → ApprovalError
  reason_required : ApprovalError

abbrev pub approval_id : ResultApproval → ℕ
approval_id a = a.id

abbrev pub same_programme : Option ℕ → Option ℕ → Bool
same_programme none none = true
same_programme none (some _) = false
same_programme (some _) none = false
same_programme (some a) (some b) = a == b

-- the approval of a semester and a programme, or of all programmes
unfoldable pub find_approval : List ResultApproval → ℕ → Option ℕ → Option ResultApproval
find_approval rows semester_id programme_id =
    find_first (λ a. (a.semester == semester_id) && same_programme a.programme programme_id) rows

abbrev pub Approvals : Type 0
Approvals = Result ApprovalError (List ResultApproval × ResultApproval)

unfoldable pub resubmit : List ResultApproval → ResultApproval → Approvals
resubmit rows a =
    let a' : ResultApproval = record a { status = pending } in
    elim a.status [
      | pending ↦ ok (update_row approval_id a' rows, a')
      | rejected ↦ ok (update_row approval_id a' rows, a')
      | approved ↦ err (invalid_approval_transition approved)
      | published ↦ err (invalid_approval_transition published)
    ]

-- the two branches on the row found
unfoldable pub submit_at : List ResultApproval → ℕ → Option ℕ → Option ResultApproval → Approvals
submit_at rows semester_id programme_id (some a) = resubmit rows a
submit_at rows semester_id programme_id none =
    let a : ResultApproval = record {
      id = next_key approval_id rows;
      semester = semester_id;
      programme = programme_id;
      status = pending;
      approved_by = none;
      approved_at = none;
      approval_notes = "";
      published_by = none;
      published_at = none;
    } in
    ok (a ∷ rows, a)

unfoldable pub submit_for_approval : List ResultApproval → ℕ → Option ℕ → Approvals
submit_for_approval rows semester_id programme_id =
    submit_at rows semester_id programme_id (find_approval rows semester_id programme_id)

-- the refusal of every status but one
abbrev pub must_be_pending : ApprovalStatus → Result ApprovalError (Unit {0})
must_be_pending pending = ok tt
must_be_pending approved = err (invalid_approval_transition approved)
must_be_pending rejected = err (invalid_approval_transition rejected)
must_be_pending published = err (invalid_approval_transition published)

abbrev pub must_be_approved : ApprovalStatus → Result ApprovalError (Unit {0})
must_be_approved approved = ok tt
must_be_approved pending = err (invalid_approval_transition pending)
must_be_approved rejected = err (invalid_approval_transition rejected)
must_be_approved published = err (invalid_approval_transition published)

unfoldable pub approve_results :
    (now : ℕ) → List ResultApproval → ResultApproval → Option ℕ → String → Approvals
approve_results now rows a actor notes = do
  must_be_pending a.status
  let a' : ResultApproval = record a {
    status = approved;
    approved_by = actor;
    approved_at = some now;
    approval_notes = notes;
  }
  ok (update_row approval_id a' rows, a')

unfoldable pub reject_results : List ResultApproval → ResultApproval → String → Approvals
reject_results rows a notes = do
  raise_if (is_blank notes) reason_required
  must_be_pending a.status
  let a' : ResultApproval = record a { status = rejected; approval_notes = notes }
  ok (update_row approval_id a' rows, a')

unfoldable pub publish_results :
    (now : ℕ) → List ResultApproval → ResultApproval → Option ℕ → Approvals
publish_results now rows a actor = do
  must_be_approved a.status
  let a' : ResultApproval = record a {
    status = published;
    published_by = actor;
    published_at = some now;
  }
  ok (update_row approval_id a' rows, a')

-- `_approval_for`, with the programme already read
unfoldable pub approval_for : List ResultApproval → ℕ → ℕ → Option ResultApproval
approval_for rows programme_id semester_id =
    elim (find_approval rows semester_id (some programme_id)) [
      | some a ↦ some a
      | none ↦ find_approval rows semester_id none
    ]

pub record StudentResult : Type 0 where
  pub is_published : Bool
  pub withheld : Bool
  pub holds : List Hold
  pub courses : List (ℕ × CourseResult)
  pub gpa : Option ℕ

abbrev pub is_published : ApprovalStatus → Bool
is_published pending = false
is_published approved = false
is_published rejected = false
is_published published = true

abbrev pub unpublished : StudentResult
unpublished = record {
  is_published = false;
  withheld = false;
  holds = [];
  courses = [];
  gpa = none;
}

-- what is shown of published results
unfoldable pub show_or_withhold : List Hold → List (ℕ × CourseResult) → Option ℕ → StudentResult
show_or_withhold [] courses gpa = record {
  is_published = true;
  withheld = false;
  holds = [];
  courses = courses;
  gpa = gpa;
}
show_or_withhold (h ∷ hs) courses gpa = record {
  is_published = true;
  withheld = true;
  holds = h ∷ hs;
  courses = [];
  gpa = none;
}

-- what the approval found lets be shown
unfoldable pub show_for :
    Option ResultApproval → List Hold → List (ℕ × CourseResult) → Option ℕ → StudentResult
show_for none holds courses gpa = unpublished
show_for (some a) holds courses gpa =
    if is_published a.status then show_or_withhold holds courses gpa else unpublished

-- `student_result`: `rows` are the student's registrations in the semester, `result_of` is
-- `course_result` and `gpa` is what `semester_gpa` gives
unfoldable pub student_result :
    List (ℕ × ℕ)
    → List HoldProvider
    → List ResultApproval
    → (student_id semester_id : ℕ) → (rows : List CourseRegistration)
    → (result_of : ℕ → CourseResult) → (gpa : Option ℕ) → Result EnrollmentError StudentResult
student_result students providers approvals student_id semester_id rows result_of gpa = do
  programme_id ← get_programme_id students student_id
  ok (
      show_for (approval_for approvals programme_id semester_id)
        (blocking_holds providers student_id) (map (λ r. (r.course, result_of r.id)) rows) gpa)
