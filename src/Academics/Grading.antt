-- ===== src/Academics/Grading.antt =====
-- backend/apps/academics/services/grading.py
pub mod Totality
pub mod Average
use uni_acmis.Prelude.{
  ℕ, ◌+◌, ◌*◌, ◌^◌, ◌&&◌, String, Option, none, some, Bool, true, false, not, ◌||◌, List, [], ◌∷◌,
  leb, ltb, ◌==◌, ltb_ℤ, if◌then◌else◌, find_first, Result, ok, err, ◌>>=◌, ◌>>◌, raise_if, ℤ, pos,
  pos_part,
}
use uni_acmis.Decimal.{round_context, quantize}
use uni_acmis.Academics.Bands.{GradeBand, GradingScale, all_bands, get_default}

pub data GradingError : Type 0 where
  invalid_number outside_range no_scale gap_in_scale : GradingError

pub record GradeResult : Type 0 where
  pub letter : String
  pub grade_point : ℕ
  pub is_pass : Bool
  pub description : String

abbrev pub graded : GradeBand → GradeResult
graded band = record {
  letter = band.letter;
  grade_point = band.grade_point;
  is_pass = band.is_pass;
  description = band.description;
}

-- a decimal, `coefficient / 10 ^ scale`
pub record Number : Type 0 where
  pub coefficient : ℤ
  pub scale : ℕ

-- a number with two decimals
abbrev pub hundredths : ℤ → Option Number
hundredths n = some (record { coefficient = n; scale = 2 })

-- `_as_decimal`, of a value that is a number or is none
unfoldable pub as_decimal : Option Number → Result GradingError Number
as_decimal none = err invalid_number
as_decimal (some n) = ok n

-- `GradeBand.contains` of a decimal that is not negative
unfoldable pub contains_decimal : GradeBand → (coefficient scale : ℕ) → Bool
contains_decimal b coefficient scale =
    leb (b.min_percent * 10 ^ scale) (100 * coefficient)
    && leb (100 * coefficient) (b.max_percent * 10 ^ scale)

-- the loop over the bands
unfoldable pub grade_in : (coefficient scale : ℕ) → List GradeBand → Result GradingError GradeResult
grade_in coefficient scale bands =
    elim (find_first (λ b. contains_decimal b coefficient scale) bands) [
      | none ↦ err gap_in_scale
      | some band ↦ ok (graded band)
    ]

-- the bands that `grade_for` looks at: those given, or those of the scale given, or the default's
unfoldable pub bands_to_use :
    List GradingScale
    → Option GradingScale
    → Option (List GradeBand)
    → Result GradingError (List GradeBand)
bands_to_use scales scale (some bands) = ok bands
bands_to_use scales (some scale) none = ok (all_bands scale)
bands_to_use scales none none = elim (get_default scales) [
  | none ↦ err no_scale
  | some scale ↦ ok (all_bands scale)
]

-- `grade_for`; `scales` are the rows of the scale table
unfoldable pub grade_for :
    List GradingScale
    → Option Number
    → Option GradingScale
    → Option (List GradeBand)
    → Result GradingError GradeResult
grade_for scales percent scale bands = do
  value ← as_decimal percent
  raise_if
      (ltb_ℤ value.coefficient (pos 0) || ltb_ℤ (pos (100 * 10 ^ value.scale)) value.coefficient)
      outside_range
  chosen ← bands_to_use scales scale bands
  grade_in (pos_part value.coefficient) value.scale chosen

-- an entry of `gpa`: a graded course, or a bare pair of credits and points; points in hundredths
pub data Entry : Type 0 where
  course_grade : (credit_hours grade_point : ℕ) (counts_toward_gpa : Bool) → Entry
  pair : (credits points : ℕ) → Entry

-- what an entry adds to the two totals
unfoldable pub weigh : ℕ → ℕ → ℕ × ℕ → ℕ × ℕ
weigh credits points (total_points, total_credits) =
    if credits == 0
    then (total_points, total_credits)
    else (total_points + credits * points, total_credits + credits)

unfoldable pub add_entry : Entry → ℕ × ℕ → ℕ × ℕ
unfolding weigh
add_entry (course_grade credits points true) totals = weigh credits points totals
add_entry (course_grade credits points false) totals = totals
add_entry (pair credits points) totals = weigh credits points totals

unfoldable pub totals_from : ℕ × ℕ → List Entry → ℕ × ℕ
totals_from totals [] = totals
totals_from totals (e ∷ rest) = totals_from (add_entry e totals) rest

-- the quotient of the totals, in hundredths
unfoldable pub average : ℕ × ℕ → Option ℕ
average (total_points, total_credits) =
    if total_credits == 0
    then none
    else some (quantize (round_context total_points (100 * total_credits)))

unfoldable pub gpa : List Entry → Option ℕ
gpa entries = average (totals_from (0, 0) entries)

unfoldable pub cgpa : List Entry → Option ℕ
cgpa entries = gpa entries

pub data Classification : Type 0 where
  unclassified first_class upper_second lower_second pass fail : Classification

-- `scale or GradingScale.get_default()`
unfoldable pub chosen_scale : List GradingScale → Option GradingScale → Option GradingScale
chosen_scale scales (some s) = some s
chosen_scale scales none = get_default scales

unfoldable pub maximum_of : Option GradingScale → ℕ
maximum_of (some s) = s.max_grade_point
maximum_of none = 400

-- `classification`, with the scale's maximum or 4.00; `value / maximum` is compared exactly, which
-- the 28 digits of the context do for values of two decimals
unfoldable pub classification : List GradingScale → Option ℕ → Option GradingScale → Classification
classification scales none scale = unclassified
classification scales (some value) scale =
    let maximum = maximum_of (chosen_scale scales scale) in
    if maximum == 0
    then unclassified
    else if leb (875 * maximum) (1000 * value)
    then first_class
    else if leb (750 * maximum) (1000 * value)
    then upper_second
    else if leb (625 * maximum) (1000 * value)
    then lower_second
    else if leb (500 * maximum) (1000 * value)
    then pass
    else fail
