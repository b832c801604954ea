-- ===== src/Finance/Payments/Balance.antt =====
-- The status of an invoice agrees with its balance: what a change of the payments leaves of it.
use mathlib.Core.Path.{subst}
use uni_acmis.Prelude.{
  ℕ, ◌≡◌, ◌⊎◌, inl, inr, refl, sym, ◌∙◌, ap, String, Option, none, some, some_injective, true,
  false, List, arith, keep, get, get_key, get-update_row, get-update_row_away, keep-update_row,
  update_row, UniqueKeys, UniqueKeys-update_row, if◌then◌else◌, Bool-cases, ok, bind_ok,
  ok_injective, ◌==◌, ==_iff, ◌-ℤ◌,
}
use uni_acmis.Finance.Ledger.{
  Invoice, Payment, Ledger, is_closed, status_for, invoice_balance, net_amount, total, counts_for,
  invoice_id, payment_id, refreshed, refresh_found, refresh_invoice_status, is_pending, confirmed,
}
use uni_acmis.Finance.Payments.{PaidAt, confirmation_time, clean_payment, confirm_payment}

-- an invoice is closed, or has the status that its balance gives
abbrev pub Agrees : List Payment → Invoice → Type 0
Agrees payments i =
    (is_closed i.status ≡ true)
    ⊎ (i.status ≡ status_for (invoice_balance payments i) (net_amount i))

abbrev pub AllAgree : Ledger → Type 0
AllAgree l = (k : ℕ) (i : Invoice) → get invoice_id k l.invoices ≡ some i → Agrees l.payments i

abbrev pub Kept : Ledger → Type 0
Kept l = UniqueKeys payment_id l.payments × AllAgree l

pub Agrees-same :
    (ps ps' : List Payment) (i : Invoice)
    → keep (counts_for i.id) ps' ≡ keep (counts_for i.id) ps
    → Agrees ps i
    → Agrees ps' i
unfolding invoice_balance
Agrees-same ps ps' i e (inl c) = inl c
Agrees-same ps ps' i e (inr c) =
    inr (c ∙ ap (λ x. status_for (net_amount i -ℤ total x) (net_amount i)) (sym e))

-- the invoice with the status that its balance gives
abbrev reissued : List Payment → Invoice → Invoice
reissued ps i = record i { status = status_for (invoice_balance ps i) (net_amount i) }

reissued-Agrees : (ps : List Payment) (i : Invoice) → Agrees ps (reissued ps i)
unfolding invoice_balance net_amount
reissued-Agrees ps i = inr refl

refreshed-Agrees : (ps : List Payment) (i : Invoice) → Agrees ps (refreshed ps i)
unfolding refreshed
refreshed-Agrees ps i = elim (Bool-cases (is_closed i.status)) [
  | inl e ↦ subst (λ b. Agrees ps (if b then i else reissued ps i)) (sym e) (inl e)
  | inr e ↦ subst (λ b. Agrees ps (if b then i else reissued ps i)) (sym e) (reissued-Agrees ps i)
]

refreshed-id : (ps : List Payment) (i : Invoice) → (refreshed ps i).id ≡ i.id
unfolding refreshed
refreshed-id ps i = elim (Bool-cases (is_closed i.status)) [ inl e ↦ rw e refl | inr e ↦ rw e refl ]

payments-refresh_found :
    (o : Option Invoice) (l : Ledger) → (refresh_found o l).payments ≡ l.payments
unfolding refresh_found
payments-refresh_found none l = refl
payments-refresh_found (some i) l = refl

pub payments-refresh : (k : ℕ) (l : Ledger) → (refresh_invoice_status k l).payments ≡ l.payments
unfolding refresh_invoice_status
payments-refresh k l = payments-refresh_found (get invoice_id k l.invoices) l

-- a change of the payments that no other invoice sees
abbrev Elsewhere : ℕ → List Payment → List Payment → Type 0
Elsewhere k ps ps' = (j : ℕ) → (k == j) ≡ false → keep (counts_for j) ps' ≡ keep (counts_for j) ps

none-some : {A : Type 0} {a : A} → ◌≡◌ {A = Option A} none (some a) → ⊥
none-some h = ground arith

pub not_counted : (j : ℕ) (p : Payment) → is_pending p.status ≡ true → counts_for j p ≡ false
not_counted j p live = ground (arith, live)

refresh_found-AllAgree :
    (k : ℕ) (o : Option Invoice) (l : Ledger) (ps' : List Payment)
    → get invoice_id k l.invoices ≡ o
    → Elsewhere k l.payments ps'
    → AllAgree l
    → AllAgree (refresh_found o (record l { payments = ps' }))
unfolding refresh_found
refresh_found-AllAgree k none l ps' e away agree j i found =
    let id_is : i.id ≡ j = get_key invoice_id j i l.invoices found in
    elim (Bool-cases (k == i.id)) [
      | inl same ↦
          let k_is : k ≡ j = (==_iff k i.id).0 same ∙ id_is in
          absurd (none-some (sym e ∙ ap (λ x. get invoice_id x l.invoices) k_is ∙ found))
      | inr other ↦ Agrees-same l.payments ps' i (away i.id other) (agree j i found)
    ]
refresh_found-AllAgree k (some i0) l ps' e away agree j i found =
    let r = refreshed ps' i0 in
    let k_is : i0.id ≡ k = get_key invoice_id k i0 l.invoices e in
    let r_is : r.id ≡ k = refreshed-id ps' i0 ∙ k_is in
    elim (Bool-cases (r.id == j)) [
      | inl same ↦
          let stored =
            get-update_row invoice_id r i0 l.invoices
              (ap (λ x. get invoice_id x l.invoices) r_is ∙ e) in
          let i_is : r ≡ i = some_injective (
            sym stored
            ∙ ap (λ x. get invoice_id x (update_row invoice_id r l.invoices))
                ((==_iff r.id j).0 same)
            ∙ found) in
          subst (Agrees ps') i_is (refreshed-Agrees ps' i0)
      | inr other ↦
          let found' = sym (get-update_row_away invoice_id r j l.invoices other) ∙ found in
          let id_is : i.id ≡ j = get_key invoice_id j i l.invoices found' in
          let apart : (k == i.id) ≡ false = ground (arith, r_is, id_is, other) in
          Agrees-same l.payments ps' i (away i.id apart) (agree j i found')
    ]

pub refresh-AllAgree :
    (k : ℕ) (l : Ledger) (ps' : List Payment)
    → Elsewhere k l.payments ps'
    → AllAgree l
    → AllAgree (refresh_invoice_status k (record l { payments = ps' }))
unfolding refresh_invoice_status
refresh-AllAgree k l ps' away agree =
    refresh_found-AllAgree k (get invoice_id k l.invoices) l ps' refl away agree

-- a save over a pending payment, of the same invoice, is not seen by other invoices
Elsewhere-saved :
    (ps : List Payment) (p old : Payment)
    → UniqueKeys payment_id ps
    → get payment_id p.id ps ≡ some old
    → is_pending old.status ≡ true
    → Elsewhere p.invoice ps (update_row payment_id p ps)
Elsewhere-saved ps p old u g live j apart =
    keep-update_row payment_id (counts_for j) p old ps u g (not_counted j old live)
      (ground (arith, apart))

pub confirm_payment-Kept :
    (now : ℕ) (receipt : String) (paid_at : Option PaidAt) (l l' : Ledger) (old p : Payment)
    → is_pending old.status ≡ true
    → get payment_id old.id l.payments ≡ some old
    → confirm_payment now receipt paid_at l old ≡ ok (l', p)
    → Kept l
    → Kept l'
unfolding confirm_payment
confirm_payment-Kept now receipt paid_at l l' old p live g h (u, agree) =
    let p' : Payment = record old {
      status = confirmed;
      confirmed_at = some (confirmation_time paid_at now);
      receipt_number = some receipt;
    } in
    let ps' = update_row payment_id p' l.payments in
    let (c, clean, h1) = bind_ok (clean_payment l.payments p') _ h in
    subst Kept (ap (λ q. q.0) (ok_injective h1)) (
      subst (UniqueKeys payment_id)
          (sym (payments-refresh p'.invoice (record l { payments = ps' })))
          (UniqueKeys-update_row payment_id p' l.payments u),
      refresh-AllAgree p'.invoice l ps' (Elsewhere-saved l.payments p' old u g live) agree,
    )
