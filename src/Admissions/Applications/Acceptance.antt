-- ===== src/Admissions/Applications/Acceptance.antt =====
-- A complete draft can be taken to acceptance.
use uni_acmis.Prelude.{ℕ, String, none, some, true, ◌∷◌, ◌==◌, next_key, update_row, ℤ}
use text.Mathlib.Text.{◌==◌ as str_eq}
use uni_acmis.Admissions.Applications.{
  Application, submitted, offered, accepted, ApplicationFeePayment, FeePaymentStatus, payment_id,
  Admissions, application_id,
}
use uni_acmis.Admissions.Applications.Fees.{PaymentIntent}

-- the applications with a row saved
abbrev saved_in : Admissions → Application → Admissions
saved_in s a = record s { applications = update_row application_id a s.applications }

abbrev submitted_at : (now : ℕ) → Application → Application
submitted_at now a = record a { status = submitted; submitted_at = some now }

abbrev offered_at : (now : ℕ) → Application → Application
offered_at now a = record a {
  status = offered;
  reviewed_by = none;
  reviewed_at = some now;
  decision_reason = "Offered";
}

abbrev accepted_now : Application → Application
accepted_now a = record a { status = accepted }

abbrev paid : Application → Application
paid a = record a { fee_paid = true }

-- the payment that `initiate_fee_payment` stores
abbrev fee_of : Admissions → Application → PaymentIntent → ℤ → String → ApplicationFeePayment
fee_of s a intent amount currency = record {
  id = next_key payment_id s.fee_payments;
  application = a.id;
  provider = intent.provider;
  reference = intent.reference;
  amount = amount;
  currency = currency;
  status = FeePaymentStatus.pending;
  confirmed_at = none;
}

abbrev with_fee : Admissions → ApplicationFeePayment → Admissions
with_fee s p = record s { fee_payments = p ∷ s.fee_payments }

-- the payment as the provider's word leaves it
abbrev confirmed_fee : (now : ℕ) → ApplicationFeePayment → ApplicationFeePayment
confirmed_fee now p = record p { status = FeePaymentStatus.confirmed; confirmed_at = some now }

-- the state when a new payment of the fee of an application is confirmed
abbrev paid_state : (now : ℕ) → Admissions → Application → ApplicationFeePayment → Admissions
paid_state now s a p = record s {
  fee_payments = update_row payment_id (confirmed_fee now p) (p ∷ s.fee_payments);
  applications = update_row application_id (paid a) s.applications;
}
