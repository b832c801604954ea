-- ===== src/Finance/Refunds.antt =====
-- Refunds: backend/apps/finance/services.py, with `Refund` of backend/apps/finance/models.py.
pub mod Claims
pub mod Bound
use uni_acmis.Prelude.{
  ℕ, String, Option, none, some, Bool, true, false, ◌&&◌, not, List, [], ◌∷◌, keep, next_key,
  update_row, get, ◌==◌, if◌then◌else◌, is_blank, Result, ok, err, ◌>>=◌, ◌>>◌, raise_if, ℤ, pos,
  ◌+ℤ◌, ◌-ℤ◌, ltb_ℤ,
}
use uni_acmis.Finance.Ledger.{Payment, payment_id, is_confirmed}

-- `paid_out` is `PAID`
pub data RefundStatus : Type 0 where
  requested approved rejected paid_out : RefundStatus

pub record Refund : Type 0 where
  pub id : ℕ
  pub payment : ℕ
  pub amount : ℤ
  pub currency : String
  pub reason : String
  pub status : RefundStatus
  pub requested_by : Option ℕ
  pub decided_by : Option ℕ
  pub decision_notes : String
  pub decided_at : Option ℕ
  pub paid_at : Option ℕ

pub data RefundError : Type 0 where
  no_reason payment_not_found payment_not_confirmed refund_exceeds_payment : RefundError
  invalid_refund_transition : RefundStatus → RefundError

abbrev pub refund_id : Refund → ℕ
refund_id r = r.id

abbrev pub is_rejected : RefundStatus → Bool
is_rejected requested = false
is_rejected approved = false
is_rejected rejected = true
is_rejected paid_out = false

-- whether a refund counts as a claim on a payment
abbrev pub claims : ℕ → Refund → Bool
claims payment_key r = (r.payment == payment_key) && not (is_rejected r.status)

abbrev pub sum_amounts : List Refund → ℤ
sum_amounts [] = pos 0
sum_amounts (r ∷ rs) = r.amount +ℤ sum_amounts rs

unfoldable pub already_claimed : List Refund → ℕ → ℤ
already_claimed refunds payment_key = sum_amounts (keep (claims payment_key) refunds)

abbrev pub find_payment : List Payment → ℕ → Result RefundError Payment
find_payment payments key = elim (get payment_id key payments) [
  | some p ↦ ok p
  | none ↦ err payment_not_found
]

unfoldable pub request_refund :
    List Payment
    → List Refund
    → (payment_key : ℕ) → (amount : ℤ) → (reason : String) → Option ℕ
    → Result RefundError (List Refund × Refund)
request_refund payments refunds payment_key amount reason actor = do
  raise_if (is_blank reason) no_reason
  payment ← find_payment payments payment_key
  raise_if (not (is_confirmed payment.status)) payment_not_confirmed
  raise_if (ltb_ℤ (payment.amount -ℤ already_claimed refunds payment.id) amount)
      refund_exceeds_payment
  let refund : Refund = record {
    id = next_key refund_id refunds;
    payment = payment.id;
    amount = amount;
    currency = payment.currency;
    reason = reason;
    status = requested;
    requested_by = actor;
    decided_by = none;
    decision_notes = "";
    decided_at = none;
    paid_at = none;
  }
  ok (refund ∷ refunds, refund)

abbrev pub is_requested : RefundStatus → Bool
is_requested requested = true
is_requested approved = false
is_requested rejected = false
is_requested paid_out = false

unfoldable pub decide_refund :
    (now : ℕ)
    → List Refund
    → Refund
    → (approve : Bool) → Option ℕ
    → (notes : String) → Result RefundError (List Refund × Refund)
decide_refund now refunds refund approve actor notes = do
  raise_if (is_blank notes) no_reason
  raise_if (not (is_requested refund.status)) (invalid_refund_transition refund.status)
  let r : Refund = record refund {
    status = if approve then approved else rejected;
    decided_by = actor;
    decision_notes = notes;
    decided_at = some now;
  }
  ok (update_row refund_id r refunds, r)

abbrev pub is_approved : RefundStatus → Bool
is_approved requested = false
is_approved approved = true
is_approved rejected = false
is_approved paid_out = false

unfoldable pub mark_refund_paid :
    (now : ℕ) → List Refund → Refund → Result RefundError (List Refund × Refund)
mark_refund_paid now refunds refund = do
  raise_if (not (is_approved refund.status)) (invalid_refund_transition refund.status)
  let r : Refund = record refund { status = paid_out; paid_at = some now }
  ok (update_row refund_id r refunds, r)
