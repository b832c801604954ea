-- ===== src/Examples/Approvals.antt =====
-- Runs of the approval of results and of what a student is shown.
use native.Mathlib.Omega.{arith}
use uni_acmis.Prelude.{
  next, done, ℕ, ◌≡◌, inr, refl, none, some, true, false, [], ◌∷◌, ok, All, is_none,
}
use uni_acmis.Core.Holds.{HoldProvider, blocking_holds, collect_holds, ask, answer}
use uni_acmis.Enrollment.{get_programme_id}
use uni_acmis.Examinations.Results.{CourseResult}
use uni_acmis.Examinations.Approval.{
  pending, approved, published, ResultApproval, submit_for_approval, submit_at, find_approval,
  approve_results, publish_results, approval_for, student_result, show_for, show_or_withhold,
  is_published, StudentResult,
}
use uni_acmis.Examinations.Approval.Signed.{
  submits, approves, publishes, published_were_approved, needs_approval,
}
use uni_acmis.Examinations.Approval.Guard.{student_result_guarded}

abbrev submitted_row : ResultApproval
submitted_row = record {
  id = 1;
  semester = 2;
  programme = some 3;
  status = pending;
  approved_by = none;
  approved_at = none;
  approval_notes = "";
  published_by = none;
  published_at = none;
}

abbrev approved_row : ResultApproval
approved_row = record submitted_row {
  status = approved;
  approved_by = some 1;
  approved_at = some 40;
  approval_notes = "Senate";
}

abbrev published_row : ResultApproval
published_row = record approved_row {
  status = published;
  published_by = some 1;
  published_at = some 50;
}

submitted : submit_for_approval [] 2 (some 3) ≡ ok (submitted_row ∷ [], submitted_row)
unfolding submit_for_approval submit_at find_approval
submitted = refl

senate_approved :
    approve_results 40 (submitted_row ∷ []) submitted_row (some 1) "Senate"
    ≡ ok (approved_row ∷ [], approved_row)
unfolding approve_results
senate_approved = refl

made_public :
    publish_results 50 (approved_row ∷ []) approved_row (some 1)
    ≡ ok (published_row ∷ [], published_row)
unfolding publish_results
made_public = refl

published_were_approved_example :
    All (λ a. needs_approval a.status ≡ true → is_none a.approved_at ≡ false) (published_row ∷ [])
published_were_approved_example = published_were_approved (published_row ∷ []) (
    next (submits 2 (some 3) submitted_row submitted) (
      next (approves 40 submitted_row approved_row (some 1) "Senate" refl senate_approved)
        (next (publishes 50 approved_row published_row (some 1) refl made_public) done)))

abbrev registry : HoldProvider
registry = record { source = "registry"; holds_for = λ _. ok [] }

abbrev shown_result : StudentResult
shown_result = record {
  is_published = true;
  withheld = false;
  holds = [];
  courses = [];
  gpa = some 343;
}

abbrev no_result : CourseResult
no_result = record {
  registration_id = 5;
  components = [];
  complete = false;
  has_irregularity = false;
  configuration_error = none;
  percent = none;
  letter = none;
  grade_point = none;
  is_pass = none;
}

result_shown :
    student_result
      ((9, 3) ∷ [])
      (registry ∷ [])
      (published_row ∷ [])
      9
      2
      []
      (λ _. no_result)
      (some 343)
    ≡ ok shown_result
unfolding student_result get_programme_id approval_for find_approval show_for show_or_withhold
    blocking_holds collect_holds ask answer
result_shown = refl

student_result_guarded_example :
    (programme : ℕ) × (a : ResultApproval) × (get_programme_id ((9, 3) ∷ []) 9 ≡ ok programme)
    × (approval_for (published_row ∷ []) programme 2 ≡ some a)
    × (is_published a.status ≡ true)
    × (blocking_holds (registry ∷ []) 9 ≡ [])
student_result_guarded_example =
    student_result_guarded ((9, 3) ∷ []) (registry ∷ []) (published_row ∷ []) 9 2 []
      (λ _. no_result) (some 343) shown_result result_shown (inr (λ h. ground (arith, h)))
