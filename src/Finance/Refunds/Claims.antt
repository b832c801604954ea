-- ===== src/Finance/Refunds/Claims.antt =====
-- What the refunds of a payment claim, and the saves that keep it within the payment.
use mathlib.Core.Path.{subst}
use uni_acmis.Prelude.{
  ℕ, ◌≤◌, ◌≡◌, refl, sym, ◌∙◌, ap, some, false, not, List, [], ◌∷◌, arith, keep, All, get, sum_by,
  sum_by-update_row, update_row, UniqueKeys, UniqueKeys-update_row, All-update_row, get-All,
  if◌then◌else◌, pos_part, neg_part, ◌≤ℤ◌, +ℤ_nonneg, Bool-cases, inl, inr,
}
use uni_acmis.Finance.Ledger.{Payment, payment_id}
use uni_acmis.Finance.Refunds.{
  Refund, RefundStatus, refund_id, claims, is_rejected, is_requested, is_approved, sum_amounts,
  already_claimed,
}

abbrev pub NonNegative : Refund → Type 0
NonNegative r = neg_part r.amount ≡ 0

-- what a refund claims of a payment
abbrev pub weight : ℕ → Refund → ℕ
weight k r = if claims k r then pos_part r.amount else 0

pub claimed_total :
    (k : ℕ) (rs : List Refund)
    → All NonNegative rs
    → (pos_part (already_claimed rs k) ≡ sum_by (weight k) rs)
      × (neg_part (already_claimed rs k) ≡ 0)
unfolding already_claimed
claimed_total k [] h = (refl, refl)
claimed_total k (r ∷ rs) h = elim (Bool-cases (claims k r)) [
  | inl e ↦
      let (a, b) = claimed_total k rs h.1 in
      let (c, d) = +ℤ_nonneg r.amount (sum_amounts (keep (claims k) rs)) h.0 b in
      rw e (omega (arith, a, c), d)
  | inr e ↦ let (a, b) = claimed_total k rs h.1 in rw e (omega (arith, a), b)
]

-- Of no payment is more claimed than its amount.
abbrev pub WithinPayments : List Payment → List Refund → Type 0
WithinPayments payments rs =
    (k : ℕ) (p : Payment) → get payment_id k payments ≡ some p → already_claimed rs k ≤ℤ p.amount

abbrev pub Kept : List Payment → List Refund → Type 0
Kept payments rs = UniqueKeys refund_id rs × All NonNegative rs × WithinPayments payments rs

-- a save that claims no more than the stored row
lighter_keeps :
    (payments : List Payment) (rs : List Refund) (r old : Refund)
    → get refund_id r.id rs ≡ some old
    → NonNegative r
    → ((k : ℕ) → weight k r ≤ weight k old)
    → Kept payments rs
    → Kept payments (update_row refund_id r rs)
lighter_keeps payments rs r old g nn light (u, nonneg, within) =
    let nonneg' = All-update_row refund_id NonNegative r rs nn nonneg in
    (
      UniqueKeys-update_row refund_id r rs u,
      nonneg',
      λ k p found.
          let (a, b) = claimed_total k rs nonneg in
          let (c, d) = claimed_total k (update_row refund_id r rs) nonneg' in
          omega (
            arith,
            a,
            b,
            c,
            d,
            within k p found,
            light k,
            sum_by-update_row refund_id (weight k) r old rs u g,
          ),
    )

-- what a decision or a payment leaves of a stored refund
abbrev pub Successor : Refund → Refund → Type 0
Successor old r =
    (r.id ≡ old.id)
    × (r.amount ≡ old.amount)
    × (r.payment ≡ old.payment)
    × (is_rejected old.status ≡ false)

lighter :
    (k : ℕ) (old r : Refund)
    → r.amount ≡ old.amount
    → r.payment ≡ old.payment
    → is_rejected old.status ≡ false
    → weight k r ≤ weight k old
lighter k old r a q live =
    let e : pos_part r.amount ≡ pos_part old.amount = ap pos_part a in ground (arith, e, q, live)

pub requested_live : (st : RefundStatus) → not (is_requested st) ≡ false → is_rejected st ≡ false
requested_live st h = ground arith

pub approved_live : (st : RefundStatus) → not (is_approved st) ≡ false → is_rejected st ≡ false
approved_live st h = ground arith

pub Successor-keeps :
    (payments : List Payment) (rs rs' : List Refund) (old r : Refund)
    → get refund_id old.id rs ≡ some old
    → Successor old r
    → rs' ≡ update_row refund_id r rs
    → Kept payments rs
    → Kept payments rs'
Successor-keeps payments rs rs' old r g (i, a, q, live) saved kept =
    let stored = subst (λ k. get refund_id k rs ≡ some old) (sym i) g in
    let nn : NonNegative r = ap neg_part a ∙ get-All refund_id NonNegative old.id old rs g kept.1 in
    let light : (k : ℕ) → weight k r ≤ weight k old = λ k. lighter k old r a q live in
    subst (Kept payments) (sym saved) (lighter_keeps payments rs r old stored nn light kept)
