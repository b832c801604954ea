-- ===== src/Finance/Payments/Operations.antt =====
-- What each operation on payments keeps.
use mathlib.Core.Path.{subst}
use text.Mathlib.Text.{◌==◌ as str_eq}
use uni_acmis.Prelude.{
  ℕ, ◌≡◌, refl, ap, String, Option, none, some, Bool, true, false, ◌&&◌, ◌||◌, not, ◌∷◌, arith, get,
  get_found, find_first-holds, keep-update_row, update_row, UniqueKeys, UniqueKeys-insert,
  UniqueKeys-update_row, Bool-cases, inl, inr, is_blank, ok, bind_ok, raise_if_ok, ok_injective,
  ◌==◌, ==_iff, ℤ, pos, leb_ℤ,
}
use uni_acmis.Finance.Ledger.{
  Invoice, Payment, Ledger, PaymentMethod, mobile_money, bank_slip, cash, cheque, PaymentStatus,
  pending, confirmed, failed, cancelled, payment_id, is_pending, is_confirmed, counts_for,
}
use uni_acmis.Finance.Payments.{
  is_manual, PaidAt, clean_payment, confirm_payment, confirm_cash, find_invoice, new_payment,
  requested_amount, record_manual_payment, confirm_manual_payment, reject_manual_payment,
  initiate_mobile_payment, end_payment, apply_state, poll_mobile_payment, CallbackEvent,
  pending_with, confirm_found, handle_payment_webhook,
}
use uni_acmis.Finance.Payments.Balance.{
  AllAgree, Kept, Agrees-same, not_counted, confirm_payment-Kept,
}

-- a pending payment that is added
added_Kept :
    (l : Ledger) (i : Invoice) (method : PaymentMethod) (amount : ℤ) (provider reference : String)
    (actor : Option ℕ) (notes : String)
    → Kept l
    → Kept (record l {
      payments = new_payment l i method amount provider reference actor notes ∷ l.payments;
    })
added_Kept l i method amount provider reference actor notes (u, agree) =
    let p = new_payment l i method amount provider reference actor notes in
    (
      UniqueKeys-insert payment_id p l.payments refl u,
      λ k inv found.
          let out : counts_for inv.id p ≡ false = not_counted inv.id p refl in
          Agrees-same l.payments (p ∷ l.payments) inv (rw out refl) (agree k inv found),
    )

-- a pending payment that ends without money
ended_Kept :
    (l : Ledger) (old p : Payment)
    → UniqueKeys payment_id l.payments
    → get payment_id p.id l.payments ≡ some old
    → is_pending old.status ≡ true
    → is_confirmed p.status ≡ false
    → AllAgree l
    → Kept (record l { payments = update_row payment_id p l.payments })
ended_Kept l old p u g live out agree = (
  UniqueKeys-update_row payment_id p l.payments u,
  λ k inv found.
      Agrees-same l.payments (update_row payment_id p l.payments) inv
        (keep-update_row payment_id (counts_for inv.id) p old l.payments u g
          (not_counted inv.id old live) (ground (arith, out)))
        (agree k inv found),
)

added_get :
    (l : Ledger) (i : Invoice) (method : PaymentMethod) (amount : ℤ) (provider reference : String)
    (actor : Option ℕ) (notes : String)
    → let p = new_payment l i method amount provider reference actor notes in
      get payment_id p.id (p ∷ l.payments) ≡ some p
added_get l i method amount provider reference actor notes =
    let p = new_payment l i method amount provider reference actor notes in
    let same : (p.id == p.id) ≡ true = (==_iff p.id p.id).1 refl in rw same refl

confirm_cash-Kept :
    (method : PaymentMethod) (now : ℕ) (receipt : String) (l l' : Ledger) (p p' : Payment)
    → is_pending p.status ≡ true
    → get payment_id p.id l.payments ≡ some p
    → confirm_cash method now receipt l p ≡ ok (l', p')
    → Kept l
    → Kept l'
unfolding confirm_cash
confirm_cash-Kept cash now receipt l l' p p' live g h k =
    confirm_payment-Kept now receipt none l l' p p' live g h k
confirm_cash-Kept mobile_money now receipt l l' p p' live g h k =
    subst Kept (ap (λ q. q.0) (ok_injective h)) k
confirm_cash-Kept bank_slip now receipt l l' p p' live g h k =
    subst Kept (ap (λ q. q.0) (ok_injective h)) k
confirm_cash-Kept cheque now receipt l l' p p' live g h k =
    subst Kept (ap (λ q. q.0) (ok_injective h)) k

pub record_manual_payment-Kept :
    (now : ℕ) (receipt : String) (l l' : Ledger) (key : ℕ) (method : PaymentMethod) (amount : ℤ)
    (reference : String) (actor : Option ℕ) (notes : String) (p : Payment)
    → record_manual_payment now receipt l key method amount reference actor notes ≡ ok (l', p)
    → Kept l
    → Kept l'
unfolding record_manual_payment
record_manual_payment-Kept now receipt l l' key method amount reference actor notes p h k =
    let (a, h1) = raise_if_ok (not (is_manual method)) _ _ h in
    let (i, found, h2) = bind_ok (find_invoice l key) _ h1 in
    let q = new_payment l i method amount "" reference actor notes in
    let (c, clean, h3) = bind_ok (clean_payment l.payments q) _ h2 in
    confirm_cash-Kept method now receipt (record l { payments = q ∷ l.payments }) l' q p refl
      (added_get l i method amount "" reference actor notes) h3
      (added_Kept l i method amount "" reference actor notes k)

not-not : (b : Bool) → not b ≡ false → b ≡ true
not-not b h = ground (arith, h)

pub confirm_manual_payment-Kept :
    (now : ℕ) (receipt : String) (l l' : Ledger) (old p : Payment)
    → get payment_id old.id l.payments ≡ some old
    → confirm_manual_payment now receipt l old ≡ ok (l', p)
    → Kept l
    → Kept l'
unfolding confirm_manual_payment
confirm_manual_payment-Kept now receipt l l' old p g h k =
    let (a, h1) = raise_if_ok (not (is_pending old.status)) _ _ h in
    confirm_payment-Kept now receipt none l l' old p (not-not _ a) g h1 k

pub reject_manual_payment-Kept :
    (l l' : Ledger) (old p : Payment) (reason : String) (note : String → String → String)
    → get payment_id old.id l.payments ≡ some old
    → reject_manual_payment l old reason note ≡ ok (l', p)
    → Kept l
    → Kept l'
unfolding reject_manual_payment
reject_manual_payment-Kept l l' old p reason note g h (u, agree) =
    let (a, h1) = raise_if_ok (is_blank reason) _ _ h in
    let (b, h2) = raise_if_ok (not (is_pending old.status)) _ _ h1 in
    let q : Payment = record old { status = failed; notes = note old.notes reason } in
    let (c, clean, h3) = bind_ok (clean_payment l.payments q) _ h2 in
    subst Kept (ap (λ q. q.0) (ok_injective h3)) (ended_Kept l old q u g (not-not _ b) refl agree)

pub initiate_mobile_payment-Kept :
    (l l' : Ledger) (key : ℕ) (amount : Option ℤ) (provider reference : String) (p : Payment)
    → initiate_mobile_payment l key amount provider reference ≡ ok (l', p)
    → Kept l
    → Kept l'
unfolding initiate_mobile_payment
initiate_mobile_payment-Kept l l' key amount provider reference p h k =
    let (i, found, h1) = bind_ok (find_invoice l key) _ h in
    let due = requested_amount l i amount in
    let (a, h2) = raise_if_ok (leb_ℤ due (pos 0)) _ _ h1 in
    let q = new_payment l i mobile_money due provider reference none "" in
    let (c, clean, h3) = bind_ok (clean_payment l.payments q) _ h2 in
    subst Kept (ap (λ q. q.0) (ok_injective h3))
      (added_Kept l i mobile_money due provider reference none "" k)

end_payment-Kept :
    (state : PaymentStatus) (l l' : Ledger) (old p : Payment)
    → is_confirmed state ≡ false
    → get payment_id old.id l.payments ≡ some old
    → is_pending old.status ≡ true
    → end_payment state l old ≡ ok (l', p)
    → Kept l
    → Kept l'
unfolding end_payment
end_payment-Kept state l l' old p out g live h (u, agree) =
    let q : Payment = record old { status = state } in
    let (c, clean, h1) = bind_ok (clean_payment l.payments q) _ h in
    subst Kept (ap (λ q. q.0) (ok_injective h1)) (ended_Kept l old q u g live out agree)

apply_state-Kept :
    (state : PaymentStatus) (paid_at : Option PaidAt) (now : ℕ) (receipt : String) (l l' : Ledger)
    (old p : Payment)
    → get payment_id old.id l.payments ≡ some old
    → is_pending old.status ≡ true
    → apply_state state paid_at now receipt l old ≡ ok (l', p)
    → Kept l
    → Kept l'
unfolding apply_state
apply_state-Kept pending paid_at now receipt l l' old p g live h k =
    subst Kept (ap (λ q. q.0) (ok_injective h)) k
apply_state-Kept confirmed paid_at now receipt l l' old p g live h k =
    confirm_payment-Kept now receipt paid_at l l' old p live g h k
apply_state-Kept failed paid_at now receipt l l' old p g live h k =
    end_payment-Kept failed l l' old p refl g live h k
apply_state-Kept cancelled paid_at now receipt l l' old p g live h k =
    end_payment-Kept cancelled l l' old p refl g live h k

pub poll_mobile_payment-Kept :
    (status : String → PaymentStatus × Option PaidAt) (now : ℕ) (receipt : String) (l l' : Ledger)
    (old p : Payment)
    → get payment_id old.id l.payments ≡ some old
    → poll_mobile_payment status now receipt l old ≡ ok (l', p)
    → Kept l
    → Kept l'
unfolding poll_mobile_payment
poll_mobile_payment-Kept status now receipt l l' old p g h k =
    elim (Bool-cases (is_pending old.status)) [
      | inr e ↦ subst Kept (ap (λ q. q.0) (ok_injective (rw e at h))) k
      | inl e ↦
          apply_state-Kept (status old.reference).0 (status old.reference).1 now receipt l l' old p
            g e (rw e at h) k
    ]

confirm_found-Kept :
    (event : CallbackEvent) (now : ℕ) (receipt : String) (l l' : Ledger) (o : Option Payment)
    (p : Option Payment)
    → pending_with event.reference l.payments ≡ o
    → confirm_found event now receipt l o ≡ ok (l', p)
    → Kept l
    → Kept l'
unfolding confirm_found pending_with
confirm_found-Kept event now receipt l l' none p e h k =
    subst Kept (ap (λ q. q.0) (ok_injective h)) k
confirm_found-Kept event now receipt l l' (some old) p e h k =
    let (d, confirmed_now, h1) = bind_ok (confirm_payment now receipt event.value_date l old) _ h in
    let test =
      find_first-holds (λ p. str_eq p.reference event.reference && is_pending p.status) old
        l.payments e in
    let live : is_pending old.status ≡ true = ground (arith, test) in
    subst Kept (ap (λ q. q.0) (ok_injective h1)) (
      confirm_payment-Kept now receipt event.value_date l d.0 old d.1 live
        (get_found payment_id _ old l.payments k.0 e) confirmed_now k)

pub handle_payment_webhook-Kept :
    (event : CallbackEvent) (now : ℕ) (receipt : String) (l l' : Ledger) (p : Option Payment)
    → handle_payment_webhook event now receipt l ≡ ok (l', p)
    → Kept l
    → Kept l'
unfolding handle_payment_webhook
handle_payment_webhook-Kept event now receipt l l' p h k =
    elim (Bool-cases (not event.verified || not (is_confirmed event.state))) [
      | inl e ↦ subst Kept (ap (λ q. q.0) (ok_injective (rw e at h))) k
      | inr e ↦ confirm_found-Kept event now receipt l l' _ p refl (rw e at h) k
    ]
