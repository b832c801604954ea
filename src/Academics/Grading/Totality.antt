-- ===== src/Academics/Grading/Totality.antt =====
-- A validated scale and the percentages of at most two decimals.
use uni_acmis.Prelude.{
  ℕ, zero, suc, ◌*◌, ◌^◌, ◌≤◌, ◌<◌, ◌≡◌, ◌⊎◌, negsuc, ℤ, Option, refl, ◌∙◌, Bool, true, some, none,
  List, [], ◌∷◌, arith, ok, pos, count_if,
}
use uni_acmis.Academics.Bands.{GradeBand, GradingScale, contains, all_bands, validate_bands}
use uni_acmis.Academics.Bands.Cover.{find_first-found, validate_bands-cover, all_bands-count_if}
use uni_acmis.Academics.Grading.{
  Number, graded, as_decimal, contains_decimal, grade_in, bands_to_use, grade_for,
}

count_if-same :
    {A : Type 0} (p q : A → Bool) (xs : List A)
    → ((x : A) → p x ≡ q x)
    → count_if p xs ≡ count_if q xs
count_if-same p q [] h = refl
count_if-same p q (x ∷ xs) h = ground (arith, h x, count_if-same p q xs h)

grade_in-total :
    (c k : ℕ) (bands : List GradeBand)
    → count_if (λ b. contains_decimal b c k) bands ≡ 1
    → (b : GradeBand) × (grade_in c k bands ≡ ok (graded b)) × (contains_decimal b c k ≡ true)
unfolding grade_in
grade_in-total c k bands one =
    let (b, found, inside) =
      find_first-found (λ b. contains_decimal b c k) bands (omega (arith, one)) in
    (b, rw (found, grade_in) refl, inside)

-- a decimal against a band, and the hundredths of it
same_test :
    (scale : GradingScale) (c k q : ℕ)
    → validate_bands scale scale.bands ≡ ok tt
    → ((b : GradeBand) → contains_decimal b c k ≡ contains b q)
    → q ≤ 10000
    → count_if (λ b. contains_decimal b c k) (all_bands scale) ≡ 1
same_test scale c k q valid same r =
    count_if-same (λ b. contains_decimal b c k) (λ b. contains b q) (all_bands scale) same
    ∙ all_bands-count_if scale (λ b. contains b q)
    ∙ validate_bands-cover scale scale.bands q valid r

one_band :
    (scale : GradingScale) (c k : ℕ)
    → validate_bands scale scale.bands ≡ ok tt
    → k ≤ 2
    → c ≤ 100 * 10 ^ k
    → count_if (λ b. contains_decimal b c k) (all_bands scale) ≡ 1
unfolding contains_decimal contains
one_band scale c zero valid h r =
    same_test scale c 0 (100 * c) valid (λ b. ground arith) (omega (arith, r))
one_band scale c (suc zero) valid h r =
    same_test scale c 1 (10 * c) valid (λ b. ground arith) (omega (arith, r))
one_band scale c (suc (suc zero)) valid h r =
    same_test scale c 2 c valid (λ b. ground arith) (omega (arith, r))
one_band scale c (suc (suc (suc k))) valid h r = absurd (omega (arith, h))

-- a percentage in the range gets the grade of a band
pub grade_for-covered :
    (scales : List GradingScale) (scale : GradingScale) (c k : ℕ)
    → validate_bands scale scale.bands ≡ ok tt
    → k ≤ 2
    → c ≤ 100 * 10 ^ k
    → (b : GradeBand) × (grade_for scales
          (some (record { coefficient = pos c; scale = k }))
          (some scale)
          none
        ≡ ok (graded b))
      × (b.min_percent * 10 ^ k ≤ 100 * c)
      × (100 * c ≤ b.max_percent * 10 ^ k)
unfolding grade_for bands_to_use as_decimal contains_decimal
grade_for-covered scales scale c k valid small r =
    let (b, e, inside) = grade_in-total c k (all_bands scale) (one_band scale c k valid small r) in
    (b, ground (arith, e, r), ground (arith, inside), ground (arith, inside))

-- the number `n / 10 ^ k`
abbrev pub number : ℤ → ℕ → Option Number
number n k = some (record { coefficient = n; scale = k })

-- `n / 10 ^ k` is below 0, or above 100
abbrev pub IsOutside : ℤ → ℕ → Type 0
IsOutside n k = ((m : ℕ) × (n ≡ negsuc m)) ⊎ ((c : ℕ) × (n ≡ pos c) × (100 * 10 ^ k < c))
