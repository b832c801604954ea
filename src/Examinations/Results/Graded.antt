-- ===== src/Examinations/Results/Graded.antt =====
-- A complete set of marks is graded.
use mathlib.Core.Path.{subst}
use uni_acmis.Prelude.{
  ℕ, ◌+◌, ◌^◌, ◌≤◌, ◌≡◌, refl, sym, ◌∙◌, Option, none, some, true, false, List, [], ◌∷◌, arith,
  sum_by, All, ok, pos, ◌+ℤ◌, int_laws,
}
use uni_acmis.Decimal.Bounds.{round_context-le-one, quantize-multiply-le}
use uni_acmis.Academics.Bands.{GradeBand, GradingScale, contains, get_default, validate_bands}
use uni_acmis.Academics.Grading.{Number, hundredths, graded, grade_for, bands_to_use}
use uni_acmis.Academics.Grading.Totality.{grade_for-covered}
use uni_acmis.Enrollment.{Registrations}
use uni_acmis.Enrollment.Lookups.{course_id_for_registration}
use uni_acmis.Examinations.Assessments.{Assessment, assessments_of}
use uni_acmis.Examinations.Marks.{Mark, effective_score, find_mark}
use uni_acmis.Examinations.Results.{
  CourseResult, Tally, check_weights, validate_assessment_weights, fraction, contribution,
  tally_one, tally, scheme_for, scheme_error, tally_scheme, ungraded, apply_grade, grade_result,
  course_result, is_empty,
}

fraction_le_one : (n m : ℕ) → n ≤ m → (fraction n m).coefficient ≤ 10 ^ (fraction n m).scale
unfolding fraction
fraction_le_one n m h = ground (arith, round_context-le-one n m)

contribution_le :
    (n m w : ℕ) → n ≤ m → w ≤ 10000 → (v : ℕ) × (contribution (pos n) m w ≡ pos v) × (v ≤ w)
unfolding contribution
contribution_le n m w h b =
    (_, refl, quantize-multiply-le (fraction n m) w (fraction_le_one n m h) (omega arith))

pos_plus : (a b : ℕ) → pos a +ℤ pos b ≡ pos (a + b)
pos_plus a b = grind int_laws

-- an assessment has a mark, under no irregularity flag, from nought to its maximum
abbrev pub FullyMarked : List Mark → ℕ → Assessment → Type 0
FullyMarked marks registration_id a =
    (m : Mark) × (n : ℕ) × (find_mark marks registration_id a.id ≡ some m)
    × (m.is_irregular ≡ false)
    × (effective_score m ≡ pos n)
    × (n ≤ a.max_score)

-- a tally that is on course to a grade, of at most `w`
abbrev OnCourse : ℕ → Tally → Type 0
OnCourse w t =
    (q : ℕ) × (t.percent ≡ pos q) × (q ≤ w) × (t.complete ≡ true) × (t.has_irregularity ≡ false)

tally_one-OnCourse :
    (w : ℕ) (t : Tally) (a : Assessment) (m : Mark) (n : ℕ)
    → m.is_irregular ≡ false
    → effective_score m ≡ pos n
    → n ≤ a.max_score
    → a.weight_percent ≤ 10000
    → OnCourse w t
    → OnCourse (w + a.weight_percent) (tally_one t a (some m))
unfolding tally_one
tally_one-OnCourse w t a m n regular score bound small (q, e, le, c, i) =
    let (v, f, vle) = contribution_le n a.max_score a.weight_percent bound small in
    (q + v, rw (e, score, f) (pos_plus q v), omega arith, c, rw (regular, i) refl)

tally-OnCourse :
    (marks : List Mark) (registration_id w : ℕ) (t : Tally) (assessments : List Assessment)
    → All (FullyMarked marks registration_id) assessments
    → sum_by (λ a. a.weight_percent) assessments ≤ 10000
    → OnCourse w t
    → OnCourse
        (w + sum_by (λ a. a.weight_percent) assessments)
        (tally marks registration_id t assessments)
unfolding tally
tally-OnCourse marks registration_id w t [] h b (q, e, le, c, i) = (q, e, omega (arith, le), c, i)
tally-OnCourse marks registration_id w t (a ∷ assessments) ((m, n, found, regular, score, bound), h)
      b o =
    let total = sum_by (λ x. x.weight_percent) assessments in
    let one = tally_one-OnCourse w t a m n regular score bound (omega (arith, b)) o in
    let all =
      tally-OnCourse marks registration_id (w + a.weight_percent) (tally_one t a (some m))
        assessments h (omega (arith, b)) one in
    let (q, e, le, c, i) = all in
    subst
      (λ o.
        OnCourse (w + (a.weight_percent + total))
          (tally marks registration_id (tally_one t a o) assessments))
      (sym found) (q, e, omega (arith, le), c, i)

check_weights_total :
    (scheme : List Assessment)
    → check_weights scheme ≡ ok tt
    → (sum_by (λ a. a.weight_percent) scheme ≡ 10000)
      × (is_empty scheme ≡ false)
      × (scheme_error scheme ≡ none)
unfolding check_weights scheme_error
check_weights_total [] h = ground arith
check_weights_total (a ∷ scheme) h = (ground arith, refl, ground arith)

tally_scheme-OnCourse :
    (marks : List Mark) (registration_id : ℕ) (scheme : List Assessment)
    → check_weights scheme ≡ ok tt
    → All (FullyMarked marks registration_id) scheme
    → OnCourse 10000 (tally_scheme marks registration_id scheme)
unfolding tally_scheme
tally_scheme-OnCourse marks registration_id scheme valid marked =
    let (total, nonempty, no_error) = check_weights_total scheme valid in
    let (q, e, le, c, i) =
      tally-OnCourse marks registration_id 0 _ scheme marked (omega (arith, total))
        (0, refl, omega arith, rw (nonempty, no_error) refl, refl) in
    (q, e, omega (arith, le, total), c, i)

default_bands :
    (scales : List GradingScale) (scale : GradingScale)
    → get_default scales ≡ some scale
    → bands_to_use scales none none ≡ bands_to_use scales (some scale) none
unfolding bands_to_use
default_bands scales scale h = ground (arith, h)

grade_for_default :
    (scales : List GradingScale) (scale : GradingScale) (p : Option Number)
    → get_default scales ≡ some scale
    → grade_for scales p none none ≡ grade_for scales p (some scale) none
unfolding grade_for
grade_for_default scales scale p h = rw (default_bands scales scale h) refl

-- what a graded result says
abbrev pub Shows : CourseResult → ℕ → GradeBand → Type 0
Shows r q b =
    (r.complete ≡ true)
    × (r.has_irregularity ≡ false)
    × (r.configuration_error ≡ none)
    × (r.percent ≡ some (pos q))
    × (r.letter ≡ some b.letter)
    × (r.grade_point ≡ some b.grade_point)
    × (r.is_pass ≡ some b.is_pass)

grade_result-Shows :
    (scales : List GradingScale) (registration_id : ℕ) (scheme : List Assessment) (t : Tally)
    (q : ℕ) (b : GradeBand)
    → is_empty scheme ≡ false
    → scheme_error scheme ≡ none
    → t.percent ≡ pos q
    → t.complete ≡ true
    → t.has_irregularity ≡ false
    → grade_for scales (hundredths (pos q)) none none ≡ ok (graded b)
    → Shows (grade_result scales t (ungraded registration_id scheme t)) q b
unfolding grade_result ungraded apply_grade
grade_result-Shows scales registration_id scheme t q b ne noerr e c i g =
    rw (c, i, e, g, ne, noerr) (refl, refl, refl, refl, refl, refl, refl)

pub course_result-graded :
    (scales : List GradingScale) (assessments : List Assessment) (marks : List Mark)
    (registrations : Registrations) (registration_id course_id : ℕ) (scale : GradingScale)
    → course_id_for_registration registrations registration_id ≡ some course_id
    → validate_assessment_weights assessments course_id ≡ ok tt
    → All (FullyMarked marks registration_id) (assessments_of assessments course_id)
    → get_default scales ≡ some scale
    → validate_bands scale scale.bands ≡ ok tt
    → (q : ℕ) × (b : GradeBand) × (q ≤ 10000)
      × (contains b q ≡ true)
      × Shows (course_result scales assessments marks registrations registration_id) q b
unfolding course_result scheme_for validate_assessment_weights
course_result-graded scales assessments marks registrations id course scale found valid marked
      default ok_bands =
    let scheme = assessments_of assessments course in
    let (total, nonempty, no_error) = check_weights_total scheme valid in
    let (q, e, le, c, i) = tally_scheme-OnCourse marks id scheme valid marked in
    let (b, g, low, high) =
      grade_for-covered scales scale q 2 ok_bands (omega arith) (omega (arith, le)) in
    (
      q,
      b,
      le,
      (unfold contains in ground (arith, low, high)),
      rw found (
          grade_result-Shows scales id scheme _ q b nonempty no_error e c i
            (grade_for_default scales scale (hundredths (pos q)) default ∙ g)),
    )
