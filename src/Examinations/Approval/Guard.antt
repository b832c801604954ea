-- ===== src/Examinations/Approval/Guard.antt =====
-- What guards the marks that a student is shown.
use mathlib.Core.Path.{subst}
use uni_acmis.Prelude.{
  ℕ, ◌≡◌, ◌≢◌, ◌⊎◌, inl, inr, refl, sym, Option, none, some, true, List, [], ◌∷◌, ok, bind_ok,
  ok_injective, Bool-cases,
}
use uni_acmis.Core.Holds.{Hold, HoldProvider, blocking_holds}
use uni_acmis.Enrollment.{CourseRegistration, get_programme_id}
use uni_acmis.Examinations.Results.{CourseResult}
use uni_acmis.Examinations.Approval.{
  ResultApproval, show_for, approval_for, StudentResult, is_published, unpublished,
  show_or_withhold, student_result,
}

shown_of :
    (holds : List Hold) (courses : List (ℕ × CourseResult)) (gpa : Option ℕ)
    → ((show_or_withhold holds courses gpa).courses ≢ [])
      ⊎ ((show_or_withhold holds courses gpa).gpa ≢ none)
    → holds ≡ []
unfolding show_or_withhold
shown_of [] courses gpa h = refl
shown_of (x ∷ xs) courses gpa (inl h) = absurd (h refl)
shown_of (x ∷ xs) courses gpa (inr h) = absurd (h refl)

hidden : (unpublished.courses ≢ []) ⊎ (unpublished.gpa ≢ none) → ⊥
hidden (inl h) = h refl
hidden (inr h) = h refl

shown_for :
    (o : Option ResultApproval) (holds : List Hold) (courses : List (ℕ × CourseResult))
    (gpa : Option ℕ)
    → ((show_for o holds courses gpa).courses ≢ []) ⊎ ((show_for o holds courses gpa).gpa ≢ none)
    → (a : ResultApproval) × (o ≡ some a) × (is_published a.status ≡ true) × (holds ≡ [])
unfolding show_for
shown_for none holds courses gpa (inl h) = absurd (h refl)
shown_for none holds courses gpa (inr h) = absurd (h refl)
shown_for (some a) holds courses gpa h = elim (Bool-cases (is_published a.status)) [
  | inl e ↦ (a, refl, e, shown_of holds courses gpa (rw e at h))
  | inr e ↦ absurd (hidden (rw e at h))
]

-- A student is shown a course's result or a GPA only if the approval for the student's programme, or
-- failing that the one for all programmes, is published, and no hold on the student blocks.
pub student_result_guarded :
    (students : List (ℕ × ℕ)) (providers : List HoldProvider) (approvals : List ResultApproval)
    (student_id semester_id : ℕ) (rows : List CourseRegistration) (result_of : ℕ → CourseResult)
    (gpa : Option ℕ) (r : StudentResult)
    → student_result students providers approvals student_id semester_id rows result_of gpa ≡ ok r
    → (r.courses ≢ []) ⊎ (r.gpa ≢ none)
    → (programme : ℕ) × (a : ResultApproval) × (get_programme_id students student_id ≡ ok programme)
      × (approval_for approvals programme semester_id ≡ some a)
      × (is_published a.status ≡ true)
      × (blocking_holds providers student_id ≡ [])
unfolding student_result
student_result_guarded students providers approvals student_id semester_id rows result_of gpa r h
      shown =
    let (programme, e, h1) = bind_ok (get_programme_id students student_id) _ h in
    let (a, found, open_status, clear) =
      shown_for _ (blocking_holds providers student_id) _ gpa
        (subst (λ x. (x.courses ≢ []) ⊎ (x.gpa ≢ none)) (sym (ok_injective h1)) shown) in
    (programme, a, e, found, open_status, clear)
