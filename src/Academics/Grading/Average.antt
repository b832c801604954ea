-- ===== src/Academics/Grading/Average.antt =====
-- The grade point average: when there is one, and its bounds.
use native.Mathlib.Nat.{mul-le-mul_left, mul-le-mul_right}
use uni_acmis.Prelude.{
  ℕ, zero, suc, ◌*◌, ◌^◌, ◌≤◌, ◌<◌, ◌≡◌, Bool, true, false, List, [], ◌∷◌, some, none, arith,
  lt→ltb, ◌↔◌, All, ltb, ◌&&◌, any, ◌==◌, not,
}
use uni_acmis.Decimal.Bounds.{quantize-round_context-le, le-quantize-round_context}
use uni_acmis.Academics.Grading.{
  Entry, course_grade, pair, weigh, add_entry, totals_from, average, gpa,
}

-- the entries that can move an average
abbrev pub has_weight : Entry → Bool
has_weight (course_grade credits points counts) = counts && ltb 0 credits
has_weight (pair credits points) = ltb 0 credits

abbrev pub points_of : Entry → ℕ
points_of (course_grade credits points counts) = points
points_of (pair credits points) = points

abbrev pub Within : ℕ → ℕ → Entry → Type 0
Within lo hi e = has_weight e ≡ true → (lo ≤ points_of e) × (points_of e ≤ hi)

-- the totals stay between the bounds times the credits
abbrev Balanced : ℕ → ℕ → ℕ × ℕ → Type 0
Balanced lo hi (points, credits) = (lo * credits ≤ points) × (points ≤ hi * credits)

weigh-Balanced :
    (lo hi credits points : ℕ) (t : ℕ × ℕ)
    → (ltb 0 credits ≡ true → (lo ≤ points) × (points ≤ hi))
    → Balanced lo hi t
    → Balanced lo hi (weigh credits points t)
unfolding weigh
weigh-Balanced lo hi zero points t h b = b
weigh-Balanced lo hi (suc c) points t h b =
    let (l, u) = h (lt→ltb 0 (suc c) (omega arith)) in
    let counted : (suc c == 0) ≡ false = ground arith in
    let below = mul-le-mul_left (suc c) l in
    let above = mul-le-mul_left (suc c) u in
    rw counted (omega (arith, below, b.0), omega (arith, above, b.1))

add_entry-Balanced :
    (lo hi : ℕ) (e : Entry) (t : ℕ × ℕ)
    → Within lo hi e
    → Balanced lo hi t
    → Balanced lo hi (add_entry e t)
unfolding add_entry
add_entry-Balanced lo hi (course_grade c p true) t h b = weigh-Balanced lo hi c p t h b
add_entry-Balanced lo hi (course_grade c p false) t h b = b
add_entry-Balanced lo hi (pair c p) t h b = weigh-Balanced lo hi c p t h b

totals_from-Balanced :
    (lo hi : ℕ) (es : List Entry) (t : ℕ × ℕ)
    → All (Within lo hi) es
    → Balanced lo hi t
    → Balanced lo hi (totals_from t es)
unfolding totals_from
totals_from-Balanced lo hi [] t h b = b
totals_from-Balanced lo hi (e ∷ es) t h b =
    totals_from-Balanced lo hi es (add_entry e t) h.1 (add_entry-Balanced lo hi e t h.0 b)

average_bounds :
    (lo hi : ℕ) (t : ℕ × ℕ) (g : ℕ)
    → hi < 10 ^ 20
    → Balanced lo hi t
    → average t ≡ some g
    → (lo ≤ g) × (g ≤ hi)
unfolding average
average_bounds lo hi (points, zero) g big b e = cc
average_bounds lo hi (points, suc c) g big b e =
    let m = mul-le-mul_right (suc c) big in
    let small : points * 10 ^ 2 < 100 * suc c * 10 ^ 28 = omega (arith, m, b.1) in
    let above =
      quantize-round_context-le points (100 * suc c) hi (omega arith) small (omega (arith, b.1)) in
    let below =
      le-quantize-round_context points (100 * suc c) lo (omega arith) small (omega (arith, b.0)) in
    ground (arith, above, below)

-- The average of grade points that lie between two bounds lies between them, after rounding too;
-- entries that are not counted or carry no credits may have any grade point.
pub gpa_bounds :
    (lo hi : ℕ) (es : List Entry) (g : ℕ)
    → hi < 10 ^ 20
    → All (Within lo hi) es
    → gpa es ≡ some g
    → (lo ≤ g) × (g ≤ hi)
unfolding gpa
gpa_bounds lo hi es g big h e =
    average_bounds lo hi (totals_from (0, 0) es) g big
      (totals_from-Balanced lo hi es (0, 0) h (omega arith, omega arith)) e

credits_grow :
    (es : List Entry) (t : ℕ × ℕ)
    → ((totals_from t es).1 == 0) ≡ ((t.1 == 0) && not (any has_weight es))
unfolding totals_from add_entry weigh
credits_grow [] t = ground arith
credits_grow (course_grade c p true ∷ es) t =
    ground (arith, credits_grow es (add_entry (course_grade c p true) t))
credits_grow (course_grade c p false ∷ es) t = ground (arith, credits_grow es t)
credits_grow (pair c p ∷ es) t = ground (arith, credits_grow es (add_entry (pair c p) t))

-- There is no average exactly when no counted entry carries credits.
pub gpa-eq-none : (es : List Entry) → (gpa es ≡ none) ↔ (any has_weight es ≡ false)
unfolding gpa average
gpa-eq-none es =
    (λ e. ground (arith, credits_grow es (0, 0)), λ e. ground (arith, credits_grow es (0, 0)))
