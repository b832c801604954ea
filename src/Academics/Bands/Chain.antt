-- ===== src/Academics/Bands/Chain.antt =====
-- A run of bands in which each starts one step above the end of the one before it.
use uni_acmis.Prelude.{ℕ, ◌+◌, ◌≤◌, ◌<◌, ◌≡◌, List, [], ◌∷◌, arith, ok, count_if}
use uni_acmis.Academics.Bands.{
  GradeBand, GradingScale, contains, check_each, check_pairs, last_band, validate_ordered,
}

abbrev pub IsChain : GradeBand → List GradeBand → Type 0
IsChain b [] = b.min_percent ≤ b.max_percent
IsChain b (c ∷ rest) =
    (b.min_percent ≤ b.max_percent) × (c.min_percent ≡ b.max_percent + 1) × IsChain c rest

-- what the loops accept is a chain
check-IsChain :
    (scale : GradingScale) (b : GradeBand) (rest : List GradeBand)
    → check_each scale (b ∷ rest) ≡ ok tt
    → check_pairs b rest ≡ ok tt
    → IsChain b rest
unfolding check_each check_pairs
check-IsChain scale b [] e p = ground arith
check-IsChain scale b (c ∷ rest) e p = ground (arith, check-IsChain scale c rest)

-- below the first band no band contains a percentage
count-below :
    (q : ℕ) (b : GradeBand) (rest : List GradeBand)
    → IsChain b rest
    → q < b.min_percent
    → count_if (λ x. contains x q) (b ∷ rest) ≡ 0
unfolding contains
count-below q b [] h p = ground arith
count-below q b (c ∷ rest) h p = ground (arith, count-below q c rest h.2)

-- from the first band's start to the last one's end exactly one band does
pub count-within :
    (q : ℕ) (b : GradeBand) (rest : List GradeBand)
    → IsChain b rest
    → b.min_percent ≤ q
    → q ≤ (last_band b rest).max_percent
    → count_if (λ x. contains x q) (b ∷ rest) ≡ 1
unfolding contains last_band
count-within q b [] h p r = ground arith
count-within q b (c ∷ rest) h p r =
    ground (arith, count-within q c rest h.2, count-below q c rest h.2)

validate_ordered-accepts :
    (scale : GradingScale) (b : GradeBand) (rest : List GradeBand)
    → validate_ordered scale (b ∷ rest) ≡ ok tt
    → (check_each scale (b ∷ rest) ≡ ok tt)
      × (b.min_percent ≡ 0)
      × ((last_band b rest).max_percent ≡ 10000)
      × (check_pairs b rest ≡ ok tt)
unfolding validate_ordered
validate_ordered-accepts scale b rest h = ground arith

pub validate_ordered-count :
    (scale : GradingScale) (bands : List GradeBand) (q : ℕ)
    → validate_ordered scale bands ≡ ok tt
    → q ≤ 10000
    → count_if (λ x. contains x q) bands ≡ 1
validate_ordered-count scale [] q h r = unfold validate_ordered in cc h
validate_ordered-count scale (b ∷ rest) q h r =
    let (each, low, high, pairs) = validate_ordered-accepts scale b rest h in
    count-within q b rest (check-IsChain scale b rest each pairs) (omega (arith, low))
      (omega (arith, high))
