-- ===== src/Academics/Bands.antt =====
-- `GradingScale` and `GradeBand` of backend/apps/academics/models.py. Percentages and grade points
-- are stored with two decimals, and are numbers of hundredths here.
pub mod Chain
pub mod Cover
use uni_acmis.Prelude.{
  ℕ, ◌-◌, String, Option, none, some, Bool, true, false, not, ◌&&◌, List, [], ◌∷◌, ltb, leb, ◌==◌,
  if◌then◌else◌, find_first, Result, ok, err, ◌>>=◌, ◌>>◌, raise_if, sorted_by,
}

pub record GradeBand : Type 0 where
  pub letter : String
  pub min_percent : ℕ
  pub max_percent : ℕ
  pub grade_point : ℕ
  pub is_pass : Bool
  pub description : String

pub record GradingScale : Type 0 where
  pub name : String
  pub max_grade_point : ℕ
  pub pass_grade_point : ℕ
  pub is_default : Bool
  pub is_locked : Bool
  pub bands : List GradeBand

abbrev pub grade_band_step : ℕ
grade_band_step = 1

-- `GradeBand.contains`
unfoldable pub contains : GradeBand → ℕ → Bool
contains b percent = leb b.min_percent percent && leb percent b.max_percent

-- the order of `scale.bands.all()`: highest first
unfoldable pub by_min_descending : GradeBand → GradeBand → Bool
by_min_descending a b = leb b.min_percent a.min_percent

unfoldable pub all_bands : GradingScale → List GradeBand
all_bands scale = sorted_by by_min_descending scale.bands

-- `GradingScale.get_default`, on the table's rows in primary-key order
unfoldable pub get_default : List GradingScale → Option GradingScale
get_default scales = elim (find_first (λ s. s.is_default) scales) [
  | some s ↦ some s
  | none ↦ elim scales [ [] ↦ none | s ∷ _ ↦ some s ]
]

pub data BandError : Type 0 where
  no_bands : BandError
  min_above_max : String → BandError
  grade_point_above_max : String → BandError
  lowest_not_zero highest_not_hundred : BandError
  overlap : String → String → BandError
  gap : ℕ → ℕ → BandError

unfoldable pub by_min : GradeBand → GradeBand → Bool
by_min a b = leb a.min_percent b.min_percent

-- the first loop of `validate_bands`
unfoldable pub check_each : GradingScale → List GradeBand → Result BandError (Unit {0})
check_each scale [] = ok tt
check_each scale (band ∷ rest) = do
  raise_if (ltb band.max_percent band.min_percent) (min_above_max band.letter)
  raise_if (ltb scale.max_grade_point band.grade_point) (grade_point_above_max band.letter)
  check_each scale rest

-- the loop over `pairwise(ordered)`, from its first band
unfoldable pub check_pairs : GradeBand → List GradeBand → Result BandError (Unit {0})
check_pairs lower [] = ok tt
check_pairs lower (upper ∷ rest) = do
  raise_if (leb upper.min_percent lower.max_percent) (overlap lower.letter upper.letter)
  raise_if (ltb grade_band_step (upper.min_percent - lower.max_percent))
      (gap lower.max_percent upper.min_percent)
  check_pairs upper rest

-- `ordered[-1]`
unfoldable pub last_band : GradeBand → List GradeBand → GradeBand
last_band b [] = b
last_band b (c ∷ rest) = last_band c rest

unfoldable pub validate_ordered : GradingScale → List GradeBand → Result BandError (Unit {0})
validate_ordered scale [] = err no_bands
validate_ordered scale (first ∷ rest) = do
  check_each scale (first ∷ rest)
  raise_if (not (first.min_percent == 0)) lowest_not_zero
  raise_if (not ((last_band first rest).max_percent == 10000)) highest_not_hundred
  check_pairs first rest

-- `GradingScale.validate_bands` with its bands given
unfoldable pub validate_bands : GradingScale → List GradeBand → Result BandError (Unit {0})
validate_bands scale bands = validate_ordered scale (sorted_by by_min bands)
