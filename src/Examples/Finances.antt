-- ===== src/Examples/Finances.antt =====
-- Runs of payments and refunds.
use native.Mathlib.Omega.{arith}
use mathlib.Core.Path.{subst}
use uni_acmis.Prelude.{
  next, done, ◌≡◌, refl, none, some, [], ◌∷◌, ok, UniqueKeys, pos, ◌+ℤ◌, ◌-ℤ◌, is_blank,
  text_length, inr,
}
use uni_acmis.Finance.Ledger.{
  Invoice, issued, partially_paid, Payment, cash, confirmed, Ledger, payment_id, invoice_balance,
  net_amount, status_for, refreshed, refresh_found, refresh_invoice_status,
}
use uni_acmis.Finance.Payments.{
  record_manual_payment, clean_payment, confirm_cash, confirm_payment, confirmation_time,
}
use uni_acmis.Finance.Payments.Balance.{AllAgree, Agrees}
use uni_acmis.Finance.Payments.Steps.{records, statuses-AllAgree}
use uni_acmis.Finance.Refunds.{Refund, requested, request_refund, already_claimed}
use uni_acmis.Finance.Refunds.Claims.{WithinPayments}
use uni_acmis.Finance.Refunds.Bound.{asks, refunds-WithinPayments}

abbrev fees : Invoice
fees = record {
  id = 1;
  student = 9;
  semester = 2;
  amount = pos 100000;
  invoice_number = "INV/2026/00001";
  due_date = 95;
  discount_amount = pos 0;
  currency = "SSP";
  status = issued;
}

abbrev deposit : Payment
deposit = record {
  id = 1;
  invoice = 1;
  method = cash;
  amount = pos 40000;
  currency = "SSP";
  provider = "";
  reference = "desk-1";
  status = confirmed;
  receipt_number = some "R-1";
  received_by = some 4;
  confirmed_at = some 10;
  notes = "";
}

abbrev billed : Ledger
billed = record { invoices = fees ∷ []; payments = [] }

abbrev part_paid : Ledger
part_paid = record {
  invoices = record fees { status = partially_paid } ∷ [];
  payments = deposit ∷ [];
}

deposit_recorded :
    record_manual_payment 10 "R-1" billed 1 cash (pos 40000) "desk-1" (some 4) ""
    ≡ ok (part_paid, deposit)
unfolding record_manual_payment clean_payment text_length confirm_cash confirm_payment
    confirmation_time refresh_invoice_status refresh_found refreshed status_for invoice_balance
    net_amount ◌-ℤ◌ ◌+ℤ◌
deposit_recorded = refl

no_payments_unique : UniqueKeys payment_id billed.payments
no_payments_unique k = omega arith

billed_agrees : AllAgree billed
unfolding invoice_balance net_amount status_for ◌-ℤ◌
billed_agrees k i found =
    let same : fees ≡ i = ground (arith, found) in subst (Agrees []) same (inr refl)

statuses-AllAgree_example : AllAgree part_paid
statuses-AllAgree_example =
    statuses-AllAgree billed part_paid no_payments_unique billed_agrees (
      next (records 10 "R-1" 1 cash (pos 40000) "desk-1" (some 4) "" deposit deposit_recorded) done)

abbrev claim : Refund
claim = record {
  id = 1;
  payment = 1;
  amount = pos 15000;
  currency = "SSP";
  reason = "Overpaid";
  status = requested;
  requested_by = some 4;
  decided_by = none;
  decision_notes = "";
  decided_at = none;
  paid_at = none;
}

claim_made :
    request_refund (deposit ∷ []) [] 1 (pos 15000) "Overpaid" (some 4) ≡ ok (claim ∷ [], claim)
unfolding request_refund is_blank already_claimed ◌-ℤ◌
claim_made = refl

refunds-WithinPayments_example : WithinPayments (deposit ∷ []) (claim ∷ [])
refunds-WithinPayments_example =
    refunds-WithinPayments (deposit ∷ []) (claim ∷ []) (refl, tt)
      (next (asks 1 15000 "Overpaid" (some 4) claim claim_made) done)
