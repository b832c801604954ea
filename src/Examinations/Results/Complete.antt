-- ===== src/Examinations/Results/Complete.antt =====
-- A grade is given for a complete set of marks only.
use uni_acmis.Prelude.{
  ℕ, ◌≡◌, ◌≢◌, refl, Option, none, some, true, false, ◌&&◌, not, is_none, List, [], ◌∷◌, arith, All,
  ok, Bool-cases, inl, inr,
}
use uni_acmis.Academics.Bands.{GradingScale}
use uni_acmis.Enrollment.{Registrations}
use uni_acmis.Enrollment.Lookups.{course_id_for_registration}
use uni_acmis.Examinations.Assessments.{Assessment}
use uni_acmis.Examinations.Marks.{Mark, find_mark}
use uni_acmis.Examinations.Results.{
  CourseResult, Tally, check_weights, tally_one, tally, scheme_for, scheme_error, tally_scheme,
  ungraded, apply_grade, grade_result, course_result, is_empty,
}

-- an assessment has a mark that is not flagged
abbrev pub Settled : List Mark → ℕ → Assessment → Type 0
Settled marks registration_id a =
    (m : Mark) × (find_mark marks registration_id a.id ≡ some m) × (m.is_irregular ≡ false)

tally_one-Settled :
    (t : Tally) (a : Assessment) (o : Option Mark)
    → (tally_one t a o).complete ≡ true
    → (tally_one t a o).has_irregularity ≡ false
    → (m : Mark) × (o ≡ some m)
      × (m.is_irregular ≡ false)
      × (t.complete ≡ true)
      × (t.has_irregularity ≡ false)
unfolding tally_one
tally_one-Settled t a none c i = ground arith
tally_one-Settled t a (some m) c i = (m, refl, ground arith, c, ground arith)

one_regular :
    (t : Tally) (a : Assessment) (o : Option Mark)
    → (tally_one t a o).has_irregularity ≡ false
    → t.has_irregularity ≡ false
unfolding tally_one
one_regular t a none h = h
one_regular t a (some m) h = ground arith

tally-regular :
    (marks : List Mark) (registration_id : ℕ) (t : Tally) (assessments : List Assessment)
    → (tally marks registration_id t assessments).has_irregularity ≡ false
    → t.has_irregularity ≡ false
unfolding tally
tally-regular marks registration_id t [] i = i
tally-regular marks registration_id t (a ∷ assessments) i =
    one_regular t a (find_mark marks registration_id a.id) (
      tally-regular marks registration_id (tally_one t a (find_mark marks registration_id a.id))
        assessments i)

tally-Settled :
    (marks : List Mark) (registration_id : ℕ) (t : Tally) (assessments : List Assessment)
    → (tally marks registration_id t assessments).complete ≡ true
    → (tally marks registration_id t assessments).has_irregularity ≡ false
    → All (Settled marks registration_id) assessments × (t.complete ≡ true)
unfolding tally
tally-Settled marks registration_id t [] c i = (tt, c)
tally-Settled marks registration_id t (a ∷ assessments) c i =
    let (rest, c') =
      tally-Settled marks registration_id (tally_one t a (find_mark marks registration_id a.id))
        assessments c i in
    let i' =
      tally-regular marks registration_id (tally_one t a (find_mark marks registration_id a.id))
        assessments i in
    let (m, found, regular, c'', _) = tally_one-Settled t a _ c' i' in
    (((m, found, regular), rest), c'')

scheme_error_none :
    (scheme : List Assessment)
    → (not (is_empty scheme) && is_none (scheme_error scheme)) ≡ true
    → check_weights scheme ≡ ok tt
unfolding scheme_error check_weights
scheme_error_none [] h = ground arith
scheme_error_none (a ∷ scheme) h = ground arith

grade_result-complete :
    (scales : List GradingScale) (t : Tally) (result : CourseResult)
    → result.grade_point ≡ none
    → (grade_result scales t result).grade_point ≢ none
    → (t.complete ≡ true) × (t.has_irregularity ≡ false)
unfolding grade_result apply_grade
grade_result-complete scales t result n h =
    elim (Bool-cases (t.complete && not t.has_irregularity)) [
      | inl e ↦ (ground arith, ground arith)
      | inr e ↦ absurd (h (ground arith))
    ]

-- When `course_result` gives a grade point, the weights of the course's assessments total 100, and
-- the registration has for every one of them a mark that is under no irregularity flag.
pub course_result_complete :
    (scales : List GradingScale) (assessments : List Assessment) (marks : List Mark)
    (registrations : Registrations) (registration_id : ℕ)
    → (course_result scales assessments marks registrations registration_id).grade_point ≢ none
    → let scheme =
        scheme_for assessments (course_id_for_registration registrations registration_id) in
      (check_weights scheme ≡ ok tt) × All (Settled marks registration_id) scheme
unfolding course_result ungraded tally_scheme
course_result_complete scales assessments marks registrations id h =
    let scheme = scheme_for assessments (course_id_for_registration registrations id) in
    let t = tally_scheme marks id scheme in
    let (c, i) = grade_result-complete scales t (ungraded id scheme t) refl h in
    let (settled, c') = tally-Settled marks id _ scheme c i in
    (scheme_error_none scheme c', settled)
