-- ===== src/Admissions/Eligibility.antt =====
-- The screen of entry requirements: backend/apps/admissions/eligibility.py, and `eligibility_warnings` of
-- services.py.
use Prim.Native.Char.{code}
use uni_acmis.Prelude.{
  ℕ, ◌+◌, ◌-◌, ◌≡◌, refl, String, Option, none, some, Bool, true, false, ◌&&◌, ◌||◌, not, List, [],
  ◌∷◌, ◌++◌, any, arith, ltb, leb, ◌==◌, if◌then◌else◌, strip,
}
use uni_acmis.Registry.{is_empty}
use uni_acmis.Admissions.Applications.{Application}

-- `Programme.entry_requirements`: a key that is missing is an empty text or list
pub record EntryRequirements : Type 0 where
  pub min_certificate_grade : String
  pub required_subjects : List String

-- the texts of the warnings as data
pub data Warning : Type 0 where
  not_recognised below_minimum : (previous_grade minimum : String) → Warning
  check_subjects : List String → Warning

-- `GRADE_ORDER`
abbrev pub grade_order : List String
grade_order = "A" ∷ "B" ∷ "C" ∷ "D" ∷ "E" ∷ "F" ∷ []

-- a letter in upper case
abbrev pub upper_code : ℕ → ℕ
upper_code c = if leb b'a' c && leb c b'z' then c - 32 else c

-- `s.upper() == t`, for a text `t` of Latin letters in upper case
unfoldable pub upper_equals : String → String → Bool
upper_equals String.[] String.[] = true
upper_equals String.[] (String.◌∷◌ d t) = false
upper_equals (String.◌∷◌ c s) String.[] = false
upper_equals (String.◌∷◌ c s) (String.◌∷◌ d t) = (upper_code (code c) == code d) && upper_equals s t

-- `list.index`, from a position
unfoldable pub index_from : ℕ → List String → String → Option ℕ
index_from i [] grade = none
index_from i (g ∷ grades) grade =
    let later = index_from (i + 1) grades grade in if upper_equals grade g then some i else later

-- `_rank`
unfoldable pub rank_of : String → Option ℕ
rank_of grade = index_from 0 grade_order (strip grade)

-- the comparison of an applicant's rank with the minimum
abbrev pub compare_ranks :
    (min_rank applicant_rank : Option ℕ) → (previous_grade minimum : String) → List Warning
compare_ranks m none previous_grade minimum = not_recognised previous_grade minimum ∷ []
compare_ranks none (some a) previous_grade minimum = []
compare_ranks (some m) (some a) previous_grade minimum =
    if ltb m a then below_minimum previous_grade minimum ∷ [] else []

abbrev pub subject_warnings : List String → List Warning
subject_warnings [] = []
subject_warnings (s ∷ ss) = check_subjects (s ∷ ss) ∷ []

unfoldable pub evaluate_entry_requirements :
    EntryRequirements → (previous_grade : String) → List Warning
evaluate_entry_requirements r previous_grade =
    (if is_empty r.min_certificate_grade
      then []
      else compare_ranks (rank_of r.min_certificate_grade) (rank_of previous_grade) previous_grade
          r.min_certificate_grade)
    ++ subject_warnings r.required_subjects

unfoldable pub eligibility_warnings : EntryRequirements → Application → List Warning
eligibility_warnings requirements a = evaluate_entry_requirements requirements a.previous_grade

-- an unknown rank is no reason for an exclusion
abbrev pub reaches : (min_rank applicant_rank : Option ℕ) → Bool
reaches none a = true
reaches (some m) none = true
reaches (some m) (some a) = leb a m

unfoldable pub meets_minimum_grade : EntryRequirements → (previous_grade : String) → Bool
meets_minimum_grade r previous_grade =
    is_empty r.min_certificate_grade
    || reaches (rank_of r.min_certificate_grade) (rank_of previous_grade)

-- whether a warning says that the grade is too low
abbrev pub says_below : Warning → Bool
says_below (not_recognised previous_grade minimum) = false
says_below (below_minimum previous_grade minimum) = true
says_below (check_subjects subjects) = false

says_below-subjects : (ss : List String) → any says_below (subject_warnings ss) ≡ false
says_below-subjects [] = refl
says_below-subjects (s ∷ ss) = refl

any-append :
    {A : Type 0} (p : A → Bool) (xs ys : List A) → any p (xs ++ ys) ≡ (any p xs || any p ys)
any-append p [] ys = refl
any-append p (x ∷ xs) ys = ground (arith, any-append p xs ys)

says_below-reaches :
    (m a : Option ℕ) (previous_grade minimum : String)
    → any says_below (compare_ranks m a previous_grade minimum) ≡ not (reaches m a)
says_below-reaches m none previous_grade minimum = ground arith
says_below-reaches none (some a) previous_grade minimum = refl
says_below-reaches (some m) (some a) previous_grade minimum = ground arith

-- A reviewer is warned that a grade is below the minimum of the programme exactly when
-- `meets_minimum_grade` says that it does not meet it, for any requirements and any grade.
pub warned_iff_below :
    (r : EntryRequirements) (previous_grade : String)
    → any says_below (evaluate_entry_requirements r previous_grade)
      ≡ not (meets_minimum_grade r previous_grade)
unfolding evaluate_entry_requirements meets_minimum_grade
warned_iff_below r previous_grade =
    let m = rank_of r.min_certificate_grade in
    let a = rank_of previous_grade in
    ground (
      arith,
      any-append says_below (compare_ranks m a previous_grade r.min_certificate_grade)
          (subject_warnings r.required_subjects),
      says_below-subjects r.required_subjects,
      says_below-reaches m a previous_grade r.min_certificate_grade,
    )
