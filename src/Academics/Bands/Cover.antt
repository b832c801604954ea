-- ===== src/Academics/Bands/Cover.antt =====
-- A scale that passes validation grades every percentage, by one band.
use uni_acmis.Prelude.{
  ℕ, ◌≤◌, ◌<◌, ◌≡◌, refl, ◌∙◌, sym, Bool, true, List, [], ◌∷◌, some, arith, ok, count_if,
  find_first, sorted_by-count_if, inl, inr, Bool-cases,
}
use uni_acmis.Academics.Bands.{
  GradeBand, GradingScale, contains, by_min, by_min_descending, all_bands, validate_bands,
}
use uni_acmis.Academics.Bands.Chain.{validate_ordered-count}

-- what is counted can be found
pub find_first-found :
    {A : Type 0} (p : A → Bool) (xs : List A)
    → 0 < count_if p xs
    → (x : A) × (find_first p xs ≡ some x) × (p x ≡ true)
find_first-found p [] h = absurd (omega arith)
find_first-found p (x ∷ xs) h = elim (Bool-cases (p x)) [
  | inl e ↦ (x, rw e refl, e)
  | inr e ↦ let (y, f, q) = find_first-found p xs (ground arith) in (y, rw e f, q)
]

-- When `validate_bands` accepts the bands, every percentage from 0 to 100 with two decimals lies in
-- exactly one of them, in whatever order they are listed.
pub validate_bands-cover :
    (scale : GradingScale) (bands : List GradeBand) (q : ℕ)
    → validate_bands scale bands ≡ ok tt
    → q ≤ 10000
    → count_if (λ b. contains b q) bands ≡ 1
unfolding validate_bands
validate_bands-cover scale bands q h r =
    sym (sorted_by-count_if by_min (λ b. contains b q) bands) ∙ validate_ordered-count scale _ q h r

pub all_bands-count_if :
    (scale : GradingScale) (p : GradeBand → Bool)
    → count_if p (all_bands scale) ≡ count_if p scale.bands
unfolding all_bands
all_bands-count_if scale p = sorted_by-count_if by_min_descending p scale.bands
