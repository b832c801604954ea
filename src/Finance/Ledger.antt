-- ===== src/Finance/Ledger.antt =====
-- Invoices, payments and the balance: backend/apps/finance/services.py, with `Invoice` and `Payment` of
-- backend/apps/finance/models.py. Amounts are signed hundredths.
use uni_acmis.Prelude.{
  ℕ, String, Option, none, some, Bool, true, false, ◌&&◌, List, [], ◌∷◌, keep, update_row, get,
  ◌==◌, if◌then◌else◌, ℤ, pos, ◌+ℤ◌, ◌-ℤ◌, ltb_ℤ, leb_ℤ,
}

-- `voided` is `CANCELLED`
pub data InvoiceStatus : Type 0 where
  issued partially_paid paid written_off voided : InvoiceStatus

pub record Invoice : Type 0 where
  pub id : ℕ
  pub student : ℕ
  pub semester : ℕ
  pub invoice_number : String
  pub due_date : ℕ
  pub amount : ℤ
  pub discount_amount : ℤ
  pub currency : String
  pub status : InvoiceStatus

pub data PaymentMethod : Type 0 where
  mobile_money bank_slip cash cheque : PaymentMethod

-- also `PaymentState` of backend/apps/core/ports.py
pub data PaymentStatus : Type 0 where
  pending confirmed failed cancelled : PaymentStatus

pub record Payment : Type 0 where
  pub id : ℕ
  pub invoice : ℕ
  pub method : PaymentMethod
  pub amount : ℤ
  pub currency : String
  pub provider : String
  pub reference : String
  pub status : PaymentStatus
  pub receipt_number : Option String
  pub received_by : Option ℕ
  pub confirmed_at : Option ℕ
  pub notes : String

pub record Ledger : Type 0 where
  pub invoices : List Invoice
  pub payments : List Payment

pub data FinanceError : Type 0 where
  invalid_payment_method invoice_not_found nothing_due reason_required : FinanceError
  not_pending : PaymentStatus → FinanceError
  invalid_reference reference_taken receipt_taken : FinanceError

abbrev pub invoice_id : Invoice → ℕ
invoice_id i = i.id

abbrev pub payment_id : Payment → ℕ
payment_id p = p.id

abbrev pub is_confirmed : PaymentStatus → Bool
is_confirmed pending = false
is_confirmed confirmed = true
is_confirmed failed = false
is_confirmed cancelled = false

abbrev pub is_pending : PaymentStatus → Bool
is_pending pending = true
is_pending confirmed = false
is_pending failed = false
is_pending cancelled = false

-- `Invoice.net_amount`
unfoldable pub net_amount : Invoice → ℤ
net_amount i = i.amount -ℤ i.discount_amount

abbrev pub total : List Payment → ℤ
total [] = pos 0
total (p ∷ ps) = p.amount +ℤ total ps

-- the confirmed payments of an invoice
abbrev pub counts_for : ℕ → Payment → Bool
counts_for invoice_key p = (p.invoice == invoice_key) && is_confirmed p.status

unfoldable pub invoice_balance : List Payment → Invoice → ℤ
invoice_balance payments i = net_amount i -ℤ total (keep (counts_for i.id) payments)

abbrev pub is_closed : InvoiceStatus → Bool
is_closed issued = false
is_closed partially_paid = false
is_closed paid = false
is_closed written_off = true
is_closed voided = true

-- the status that a balance gives
unfoldable pub status_for : (balance net : ℤ) → InvoiceStatus
status_for balance net =
    if leb_ℤ balance (pos 0) then paid else if ltb_ℤ balance net then partially_paid else issued

unfoldable pub refreshed : List Payment → Invoice → Invoice
refreshed payments i =
    if is_closed i.status
    then i
    else record i { status = status_for (invoice_balance payments i) (net_amount i) }

-- the save of the invoice found
unfoldable pub refresh_found : Option Invoice → Ledger → Ledger
refresh_found none l = l
refresh_found (some i) l = record l {
  invoices = update_row invoice_id (refreshed l.payments i) l.invoices;
}

-- `_refresh_invoice_status` for the invoice with a key
unfoldable pub refresh_invoice_status : ℕ → Ledger → Ledger
refresh_invoice_status key l = refresh_found (get invoice_id key l.invoices) l
