-- ===== src/Finance/Payments.antt =====
-- Payments: backend/apps/finance/services.py. The receipt number that `generate_receipt_number`
-- allocates, and what the payment provider answers, are arguments.
pub mod Balance
pub mod Operations
pub mod Steps
use text.Mathlib.Text.{◌==◌ as str_eq}
use uni_acmis.Prelude.{
  ℕ, String, Option, none, some, Bool, true, false, ◌&&◌, ◌||◌, not, List, [], ◌∷◌, keep, any,
  find_first, next_key, update_row, get, ltb, ◌==◌, if◌then◌else◌, is_blank, text_length, Result,
  ok, err, ◌>>=◌, ◌>>◌, raise_if, ℤ, pos, ◌+ℤ◌, ◌-ℤ◌, ltb_ℤ, leb_ℤ,
}
use uni_acmis.Finance.Ledger.{
  FinanceError, Invoice, Ledger, Payment, PaymentMethod, PaymentStatus, bank_slip, cancelled, cash,
  cheque, confirmed, failed, invalid_payment_method, invalid_reference, invoice_balance, invoice_id,
  invoice_not_found, is_confirmed, is_pending, mobile_money, not_pending, nothing_due, payment_id,
  pending, reason_required, receipt_taken, reference_taken, refresh_invoice_status,
}

abbrev pub same_receipt : Option String → Option String → Bool
same_receipt none o = false
same_receipt (some r) none = false
same_receipt (some r) (some s) = str_eq r s

-- `Payment.full_clean`: a reference of at most 120 characters, and the unique texts
unfoldable pub clean_payment : List Payment → Payment → Result FinanceError (Unit {0})
clean_payment payments p = do
  raise_if ((text_length p.reference == 0) || ltb 120 (text_length p.reference)) invalid_reference
  raise_if (any (λ q. str_eq q.reference p.reference && not (q.id == p.id)) payments)
      reference_taken
  raise_if
      (any (λ q. same_receipt q.receipt_number p.receipt_number && not (q.id == p.id)) payments)
      receipt_taken

-- the time or the date that a provider gives for a payment
pub data PaidAt : Type 0 where
  datetime date : ℕ → PaidAt

-- `paid_at if isinstance(paid_at, datetime) else timezone.now()`
unfoldable pub confirmation_time : Option PaidAt → (now : ℕ) → ℕ
confirmation_time none now = now
confirmation_time (some (datetime at)) now = at
confirmation_time (some (date day)) now = now

-- `_confirm_payment` of a stored payment
unfoldable pub confirm_payment :
    (now : ℕ) (receipt : String)
    → Option PaidAt
    → Ledger
    → Payment
    → Result FinanceError (Ledger × Payment)
confirm_payment now receipt paid_at l payment = do
  let p : Payment = record payment {
    status = confirmed;
    confirmed_at = some (confirmation_time paid_at now);
    receipt_number = some receipt;
  }
  clean_payment l.payments p
  ok (
    refresh_invoice_status p.invoice (record l { payments = update_row payment_id p l.payments }),
    p,
  )

abbrev pub is_manual : PaymentMethod → Bool
is_manual mobile_money = false
is_manual bank_slip = true
is_manual cash = true
is_manual cheque = true

-- the confirmation of a payment in cash
unfoldable pub confirm_cash :
    PaymentMethod
    → (now : ℕ) (receipt : String) → Ledger
    → Payment
    → Result FinanceError (Ledger × Payment)
confirm_cash cash now receipt l p = confirm_payment now receipt none l p
confirm_cash mobile_money now receipt l p = ok (l, p)
confirm_cash bank_slip now receipt l p = ok (l, p)
confirm_cash cheque now receipt l p = ok (l, p)

abbrev pub find_invoice : Ledger → ℕ → Result FinanceError Invoice
find_invoice l key = elim (get invoice_id key l.invoices) [
  | some i ↦ ok i
  | none ↦ err invoice_not_found
]

-- a new row for an invoice, pending
abbrev pub new_payment :
    Ledger
    → Invoice
    → PaymentMethod
    → (amount : ℤ) → (provider reference : String) → Option ℕ
    → (notes : String) → Payment
new_payment l invoice method amount provider reference actor notes = record {
  id = next_key payment_id l.payments;
  invoice = invoice.id;
  method = method;
  amount = amount;
  currency = invoice.currency;
  provider = provider;
  reference = reference;
  status = pending;
  receipt_number = none;
  received_by = actor;
  confirmed_at = none;
  notes = notes;
}

unfoldable pub record_manual_payment :
    (now : ℕ) (receipt : String)
    → Ledger
    → (invoice_key : ℕ) → PaymentMethod
    → (amount : ℤ) → (reference : String) → Option ℕ
    → (notes : String) → Result FinanceError (Ledger × Payment)
record_manual_payment now receipt l invoice_key method amount reference actor notes = do
  raise_if (not (is_manual method)) invalid_payment_method
  invoice ← find_invoice l invoice_key
  let p = new_payment l invoice method amount "" reference actor notes
  clean_payment l.payments p
  confirm_cash method now receipt (record l { payments = p ∷ l.payments }) p

unfoldable pub confirm_manual_payment :
    (now : ℕ) (receipt : String) → Ledger → Payment → Result FinanceError (Ledger × Payment)
confirm_manual_payment now receipt l p = do
  raise_if (not (is_pending p.status)) (not_pending p.status)
  confirm_payment now receipt none l p

-- `reject_manual_payment`; `note` is the text that it adds to the notes
unfoldable pub reject_manual_payment :
    Ledger
    → Payment
    → (reason : String) → (note : String → String → String) → Result FinanceError (Ledger × Payment)
reject_manual_payment l payment reason note = do
  raise_if (is_blank reason) reason_required
  raise_if (not (is_pending payment.status)) (not_pending payment.status)
  let p : Payment = record payment { status = failed; notes = note payment.notes reason }
  clean_payment l.payments p
  ok (record l { payments = update_row payment_id p l.payments }, p)

-- the amount asked for, or what is outstanding
abbrev pub requested_amount : Ledger → Invoice → Option ℤ → ℤ
requested_amount l invoice (some amount) = amount
requested_amount l invoice none = invoice_balance l.payments invoice

-- `initiate_mobile_payment`; `provider` and `reference` are those of the intent that the provider gives
unfoldable pub initiate_mobile_payment :
    Ledger
    → (invoice_key : ℕ) → Option ℤ
    → (provider reference : String) → Result FinanceError (Ledger × Payment)
initiate_mobile_payment l invoice_key amount provider reference = do
  invoice ← find_invoice l invoice_key
  let requested = requested_amount l invoice amount
  raise_if (leb_ℤ requested (pos 0)) nothing_due
  let p = new_payment l invoice mobile_money requested provider reference none ""
  clean_payment l.payments p
  ok (record l { payments = p ∷ l.payments }, p)

-- a payment that the provider reports as ended without money
unfoldable pub end_payment :
    PaymentStatus → Ledger → Payment → Result FinanceError (Ledger × Payment)
end_payment state l payment = do
  let p : Payment = record payment { status = state }
  clean_payment l.payments p
  ok (record l { payments = update_row payment_id p l.payments }, p)

-- what a poll does with the state that the provider reports
unfoldable pub apply_state :
    PaymentStatus
    → Option PaidAt
    → (now : ℕ) (receipt : String) → Ledger
    → Payment
    → Result FinanceError (Ledger × Payment)
apply_state confirmed paid_at now receipt l p = confirm_payment now receipt paid_at l p
apply_state failed paid_at now receipt l p = end_payment failed l p
apply_state cancelled paid_at now receipt l p = end_payment cancelled l p
apply_state pending paid_at now receipt l p = ok (l, p)

-- `poll_mobile_payment`; `status` is the provider's, with the time or the date of the payment
unfoldable pub poll_mobile_payment :
    (status : String → PaymentStatus × Option PaidAt)
    → (now : ℕ) (receipt : String) → Ledger
    → Payment
    → Result FinanceError (Ledger × Payment)
poll_mobile_payment status now receipt l p =
    let said = status p.reference in
    if not (is_pending p.status) then ok (l, p) else apply_state said.0 said.1 now receipt l p

-- what `verify_callback` makes of a request
pub record CallbackEvent : Type 0 where
  pub verified : Bool
  pub state : PaymentStatus
  pub reference : String
  pub value_date : Option PaidAt

unfoldable pub pending_with : String → List Payment → Option Payment
pending_with reference payments =
    find_first (λ p. str_eq p.reference reference && is_pending p.status) payments

-- the confirmation of the payment that was found
unfoldable pub confirm_found :
    CallbackEvent
    → (now : ℕ) (receipt : String) → Ledger
    → Option Payment
    → Result FinanceError (Ledger × Option Payment)
confirm_found event now receipt l none = ok (l, none)
confirm_found event now receipt l (some p) = do
  done ← confirm_payment now receipt event.value_date l p
  ok (done.0, some done.1)

unfoldable pub handle_payment_webhook :
    CallbackEvent
    → (now : ℕ) (receipt : String) → Ledger
    → Result FinanceError (Ledger × Option Payment)
handle_payment_webhook event now receipt l =
    let found = confirm_found event now receipt l (pending_with event.reference l.payments) in
    if not event.verified || not (is_confirmed event.state) then ok (l, none) else found
