-- ===== src/Finance/Payments/Steps.antt =====
-- Sequences of payment operations, and the agreement of statuses and balances that they keep.
use uni_acmis.Prelude.{Run, Run-keeps, ℕ, ◌≡◌, String, Option, some, get, UniqueKeys, ok, ℤ}
use uni_acmis.Finance.Ledger.{Payment, Ledger, PaymentMethod, PaymentStatus, payment_id}
use uni_acmis.Finance.Payments.{
  record_manual_payment, confirm_manual_payment, reject_manual_payment, initiate_mobile_payment,
  poll_mobile_payment, PaidAt, CallbackEvent, handle_payment_webhook,
}
use uni_acmis.Finance.Payments.Balance.{AllAgree, Kept}
use uni_acmis.Finance.Payments.Operations.{
  record_manual_payment-Kept, confirm_manual_payment-Kept, reject_manual_payment-Kept,
  initiate_mobile_payment-Kept, poll_mobile_payment-Kept, handle_payment_webhook-Kept,
}

-- one operation of the service, on a stored payment where it takes one
pub data Step : Ledger → Ledger → Type 0 where
  records :
      {l l' : Ledger} (now : ℕ) (receipt : String) (key : ℕ) (method : PaymentMethod) (amount : ℤ)
      (reference : String) (actor : Option ℕ) (notes : String) (p : Payment)
      → record_manual_payment now receipt l key method amount reference actor notes ≡ ok (l', p)
      → Step l l'
  confirms :
      {l l' : Ledger} (now : ℕ) (receipt : String) (old p : Payment)
      → get payment_id old.id l.payments ≡ some old
      → confirm_manual_payment now receipt l old ≡ ok (l', p)
      → Step l l'
  rejects :
      {l l' : Ledger} (old p : Payment) (reason : String) (note : String → String → String)
      → get payment_id old.id l.payments ≡ some old
      → reject_manual_payment l old reason note ≡ ok (l', p)
      → Step l l'
  initiates :
      {l l' : Ledger} (key : ℕ) (amount : Option ℤ) (provider reference : String) (p : Payment)
      → initiate_mobile_payment l key amount provider reference ≡ ok (l', p)
      → Step l l'
  polls :
      {l l' : Ledger} (status : String → PaymentStatus × Option PaidAt) (now : ℕ) (receipt : String)
      (old p : Payment)
      → get payment_id old.id l.payments ≡ some old
      → poll_mobile_payment status now receipt l old ≡ ok (l', p)
      → Step l l'
  calls_back :
      {l l' : Ledger} (event : CallbackEvent) (now : ℕ) (receipt : String) (p : Option Payment)
      → handle_payment_webhook event now receipt l ≡ ok (l', p)
      → Step l l'

abbrev pub Steps : Ledger → Ledger → Type 0
Steps = Run Step

Step-Kept : {l l' : Ledger} → Step l l' → Kept l → Kept l'
Step-Kept (records {l} {l'} now receipt key method amount reference actor notes p h) k =
    record_manual_payment-Kept now receipt l l' key method amount reference actor notes p h k
Step-Kept (confirms {l} {l'} now receipt old p g h) k =
    confirm_manual_payment-Kept now receipt l l' old p g h k
Step-Kept (rejects {l} {l'} old p reason note g h) k =
    reject_manual_payment-Kept l l' old p reason note g h k
Step-Kept (initiates {l} {l'} key amount provider reference p h) k =
    initiate_mobile_payment-Kept l l' key amount provider reference p h k
Step-Kept (polls {l} {l'} status now receipt old p g h) k =
    poll_mobile_payment-Kept status now receipt l l' old p g h k
Step-Kept (calls_back {l} {l'} event now receipt p h) k =
    handle_payment_webhook-Kept event now receipt l l' p h k

Steps-Kept : {l l' : Ledger} → Steps l l' → Kept l → Kept l'
Steps-Kept steps k = Run-keeps Step Kept (λ a b s k. Step-Kept s k) steps k

-- Whatever sequence of payments is recorded, confirmed, rejected, initiated, polled or called back, on
-- stored payments with unique keys, every invoice that is not closed keeps the status that its balance
-- gives, if all had it at the start.
pub statuses-AllAgree :
    (l l' : Ledger) → UniqueKeys payment_id l.payments → AllAgree l → Steps l l' → AllAgree l'
statuses-AllAgree l l' u agree steps = (Steps-Kept steps (u, agree)).1
