-- ===== src/Decimal/Bounds.antt =====
-- Rounding never passes a bound that can be represented.
use native.Mathlib.Nat.{
  div-add-mod', div-le_of_le-mul, le-div_iff_mul-le, mul-le-mul_right, mul_comm, pow-suc,
}
use native.Mathlib.Decide.{dec_le}
use uni_acmis.Prelude.{ℕ, zero, suc, ◌*◌, ◌/◌, ◌%◌, ◌^◌, ◌-◌, ◌≤◌, ◌<◌, ◌≡◌, arith, lt→ltb}
use uni_acmis.Decimal.{half_up, half_even, Decimal, scale_for, round_context, multiply, quantize}

module _ (a b m : ℕ) (p : 0 < b) where
  div_le : a ≤ m * b → a / b ≤ m
  div_le h = div-le_of_le-mul b (omega (arith, mul_comm m b))

  -- with a remainder left the quotient is below the bound
  div_lt : a ≤ m * b → 0 < a % b → a / b < m
  div_lt h r = elim (dec_le m (a / b)) [
    | yes q ↦ absurd (omega (arith, div-add-mod' a b, mul-le-mul_right b q))
    | no q ↦ omega arith
  ]

  pub half_up_le : a ≤ m * b → half_up a b ≤ m
  unfolding half_up
  half_up_le h = ground (arith, div_le, div_lt)

  pub half_even_le : a ≤ m * b → half_even a b ≤ m
  unfolding half_even
  half_even_le h = ground (arith, div_le, div_lt)

  le_div : m * b ≤ a → m ≤ a / b
  le_div h = (le-div_iff_mul-le p).1 h

  pub le_half_up : m * b ≤ a → m ≤ half_up a b
  unfolding half_up
  le_half_up h = ground (arith, le_div)

  pub le_half_even : m * b ≤ a → m ≤ half_even a b
  unfolding half_even
  le_half_even h = ground (arith, le_div)

pub pow_pos : (k : ℕ) → 0 < 10 ^ k
pow_pos zero = omega arith
pow_pos (suc k) = omega (arith, pow-suc 10 k, pow_pos k)

pub pow_split : (k : ℕ) → 2 ≤ k → 10 ^ k ≡ 10 ^ (k - 2) * 100
pow_split zero h = absurd (omega arith)
pow_split (suc zero) h = absurd (omega arith)
pow_split (suc (suc k)) h =
    let e : suc (suc k) - 2 ≡ k = omega arith in
    rw e (omega (arith, pow-suc 10 (suc k), pow-suc 10 k))

pub le-scale_for :
    (fuel num den j : ℕ) → j ≤ fuel → num * 10 ^ j < den * 10 ^ 28 → j ≤ scale_for fuel num den
unfolding scale_for
le-scale_for zero num den j h q = h
le-scale_for (suc k) num den j h q = elim (dec_le (suc k) j) [
  | yes top ↦ let e : j ≡ suc k = omega arith in rw (lt→ltb _ _ (rw e at q)) h
  | no below ↦ ground (arith, le-scale_for k num den j (omega arith) q)
]

-- A quotient below one is rounded to at most one.
pub round_context-le-one :
    (num den : ℕ)
    → 0 < den
    → num ≤ den
    → (round_context num den).coefficient ≤ 10 ^ (round_context num den).scale
unfolding round_context
round_context-le-one num den p h =
    let k = scale_for 60 num den in
    half_even_le (num * 10 ^ k) den (10 ^ k) p
      (omega (arith, mul-le-mul_right (10 ^ k) h, mul_comm den (10 ^ k)))

scaled_le :
    (num den w t : ℕ)
    → 0 < den
    → num * 100 ≤ w * den
    → half_even (num * (t * 100)) den * 100 ≤ w * (t * 100)
scaled_le num den w t p h =
    let bound =
      half_even_le (num * (t * 100)) den (w * t) p (omega (arith, mul-le-mul_right t h)) in
    omega (arith, bound)

-- A value of at most `w` hundredths is at most that after both roundings.
pub quantize-round_context-le :
    (num den w : ℕ)
    → 0 < den
    → num * 10 ^ 2 < den * 10 ^ 28
    → num * 100 ≤ w * den
    → quantize (round_context num den) ≤ w
unfolding quantize round_context
quantize-round_context-le num den w p small h =
    let k = scale_for 60 num den in
    half_up_le (half_even (num * 10 ^ k) den * 100) (10 ^ k) w (pow_pos k) (
      rw (pow_split k (le-scale_for 60 num den 2 (omega arith) small))
        (scaled_le num den w (10 ^ (k - 2)) p h))

le_scaled :
    (num den w t : ℕ)
    → 0 < den
    → w * den ≤ num * 100
    → w * (t * 100) ≤ half_even (num * (t * 100)) den * 100
le_scaled num den w t p h =
    let bound =
      le_half_even (num * (t * 100)) den (w * t) p (omega (arith, mul-le-mul_right t h)) in
    omega (arith, bound)

-- A value of at least `w` hundredths is at least that after both roundings.
pub le-quantize-round_context :
    (num den w : ℕ)
    → 0 < den
    → num * 10 ^ 2 < den * 10 ^ 28
    → w * den ≤ num * 100
    → w ≤ quantize (round_context num den)
unfolding quantize round_context
le-quantize-round_context num den w p small h =
    let k = scale_for 60 num den in
    le_half_up (half_even (num * 10 ^ k) den * 100) (10 ^ k) w (pow_pos k) (
      rw (pow_split k (le-scale_for 60 num den 2 (omega arith) small))
        (le_scaled num den w (10 ^ (k - 2)) p h))

-- A fraction of at most one, times a weight in hundredths, is at most the weight after rounding.
pub quantize-multiply-le :
    (x : Decimal) (w : ℕ)
    → x.coefficient ≤ 10 ^ x.scale
    → w < 10 ^ 20
    → quantize (multiply x w 2) ≤ w
unfolding multiply
quantize-multiply-le x w h b =
    let t = 10 ^ x.scale in
    let m = mul-le-mul_right w h in
    quantize-round_context-le (x.coefficient * w) (t * 100) w (omega (arith, pow_pos x.scale))
      (grind (arith, m, pow_pos x.scale)) (omega (arith, m, mul_comm w t))
