-- ===== src/Decimal.antt =====
-- Python's `decimal` on non-negative values, under the default context (28 significant digits).
-- A value is `coefficient / 10 ^ scale`.
pub mod Bounds
use uni_acmis.Prelude.{ℕ, zero, suc, ◌+◌, ◌*◌, ◌/◌, ◌%◌, ◌^◌, ◌||◌, ltb, leb, ◌==◌, if◌then◌else◌}

-- `a / b` to the nearest integer, a tie away from zero (`ROUND_HALF_UP`)
unfoldable pub half_up : ℕ → ℕ → ℕ
half_up a b = if leb b (2 * (a % b)) then a / b + 1 else a / b

-- `a / b` to the nearest integer, a tie to the even one (`ROUND_HALF_EVEN`, the default)
unfoldable pub half_even : ℕ → ℕ → ℕ
half_even a b =
    if ltb (2 * (a % b)) b
    then a / b
    else if ltb b (2 * (a % b)) || (a / b % 2 == 1)
    then a / b + 1
    else a / b

pub record Decimal : Type 0 where
  pub coefficient : ℕ
  pub scale : ℕ

-- The largest scale, up to `limit`, at which `num / den` has no more than 28 digits.
unfoldable pub scale_for : ℕ → ℕ → ℕ → ℕ
scale_for zero num den = 0
scale_for (suc k) num den =
    let rest = scale_for k num den in if ltb (num * 10 ^ suc k) (den * 10 ^ 28) then suc k else rest

-- `num / den` as the context rounds it
unfoldable pub round_context : ℕ → ℕ → Decimal
round_context num den =
    let k = scale_for 60 num den in record { coefficient = half_even (num * 10 ^ k) den; scale = k }

-- `x * m`, for an integer coefficient `m` at scale `s`
unfoldable pub multiply : Decimal → ℕ → ℕ → Decimal
multiply x m s = round_context (x.coefficient * m) (10 ^ x.scale * 10 ^ s)

-- `x.quantize(Decimal("0.01"), rounding=ROUND_HALF_UP)`, in hundredths
unfoldable pub quantize : Decimal → ℕ
quantize x = half_up (x.coefficient * 100) (10 ^ x.scale)
