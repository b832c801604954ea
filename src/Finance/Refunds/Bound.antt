-- ===== src/Finance/Refunds/Bound.antt =====
-- The refunds of a payment stay within it.
use mathlib.Core.Path.{subst}
use uni_acmis.Prelude.{
  Run, Run-keeps, ℕ, ◌+◌, ◌≤◌, ◌≡◌, sym, ◌∙◌, ap, String, Option, some, Bool, false, not, List, [],
  ◌∷◌, arith, All, get, get_key, next_key, update_row, UniqueKeys-insert, get-All, is_blank, ok,
  bind_ok, raise_if_ok, ok_injective, ℤ, pos, pos_part, neg_part, ◌-ℤ◌, ◌≤ℤ◌, ltb_ℤ, -ℤ_parts, ◌==◌,
  ==_iff, Bool-cases, inl, inr, Option-cases, some_injective,
}
use uni_acmis.Finance.Ledger.{Payment, payment_id, is_confirmed}
use uni_acmis.Finance.Refunds.{
  Refund, refund_id, is_requested, is_approved, already_claimed, find_payment, request_refund,
  decide_refund, mark_refund_paid,
}
use uni_acmis.Finance.Refunds.Claims.{
  NonNegative, weight, claimed_total, WithinPayments, Kept, Successor, requested_live,
  approved_live, Successor-keeps,
}

-- one operation of the service, on a stored refund where it takes one; amounts asked for are not
-- negative
pub data Step (payments : List Payment) : List Refund → List Refund → Type 0 where
  asks :
      {rs rs' : List Refund} (key n : ℕ) (reason : String) (actor : Option ℕ) (r : Refund)
      → request_refund payments rs key (pos n) reason actor ≡ ok (rs', r)
      → Step payments rs rs'
  decides :
      {rs rs' : List Refund} (now : ℕ) (old r : Refund) (approve : Bool) (actor : Option ℕ)
      (notes : String)
      → get refund_id old.id rs ≡ some old
      → decide_refund now rs old approve actor notes ≡ ok (rs', r)
      → Step payments rs rs'
  pays :
      {rs rs' : List Refund} (now : ℕ) (old r : Refund)
      → get refund_id old.id rs ≡ some old
      → mark_refund_paid now rs old ≡ ok (rs', r)
      → Step payments rs rs'

abbrev pub Steps : (payments : List Payment) → List Refund → List Refund → Type 0
Steps payments = Run (Step payments)

decide_refund-Successor :
    (now : ℕ) (rs rs' : List Refund) (old r : Refund) (approve : Bool) (actor : Option ℕ)
    (notes : String)
    → decide_refund now rs old approve actor notes ≡ ok (rs', r)
    → Successor old r × (rs' ≡ update_row refund_id r rs)
unfolding decide_refund
decide_refund-Successor now rs rs' old r approve actor notes h =
    let (a, h1) = raise_if_ok (is_blank notes) _ _ h in
    let (b, h2) = raise_if_ok (not (is_requested old.status)) _ _ h1 in
    let e = ok_injective (sym h2) in
    (
      (
        ap (λ q. q.1.id) e,
        ap (λ q. q.1.amount) e,
        ap (λ q. q.1.payment) e,
        requested_live old.status b,
      ),
      ap (λ q. q.0) e ∙ ap (λ q. update_row refund_id q.1 rs) (sym e),
    )

mark_refund_paid-Successor :
    (now : ℕ) (rs rs' : List Refund) (old r : Refund)
    → mark_refund_paid now rs old ≡ ok (rs', r)
    → Successor old r × (rs' ≡ update_row refund_id r rs)
unfolding mark_refund_paid
mark_refund_paid-Successor now rs rs' old r h =
    let (b, h2) = raise_if_ok (not (is_approved old.status)) _ _ h in
    let e = ok_injective (sym h2) in
    (
      (
        ap (λ q. q.1.id) e,
        ap (λ q. q.1.amount) e,
        ap (λ q. q.1.payment) e,
        approved_live old.status b,
      ),
      ap (λ q. q.0) e ∙ ap (λ q. update_row refund_id q.1 rs) (sym e),
    )

find_payment_ok :
    (payments : List Payment) (key : ℕ) (p : Payment)
    → find_payment payments key ≡ ok p
    → get payment_id key payments ≡ some p
find_payment_ok payments key p h = elim (Option-cases (get payment_id key payments)) [
  | inl e ↦ absurd (ground (arith, e, h))
  | inr (q, e) ↦ ground (arith, e, h)
]

-- what a request adds to the table
request_refund-row :
    (payments : List Payment) (rs rs' : List Refund) (key n : ℕ) (reason : String)
    (actor : Option ℕ) (r : Refund)
    → request_refund payments rs key (pos n) reason actor ≡ ok (rs', r)
    → (p : Payment) × (get payment_id key payments ≡ some p)
      × (rs' ≡ r ∷ rs)
      × (r.id ≡ next_key refund_id rs)
      × (r.payment ≡ p.id)
      × (r.amount ≡ pos n)
      × (ltb_ℤ (p.amount -ℤ already_claimed rs p.id) (pos n) ≡ false)
unfolding request_refund
request_refund-row payments rs rs' key n reason actor r h =
    let (a, h1) = raise_if_ok (is_blank reason) _ _ h in
    let (p, found, h2) = bind_ok (find_payment payments key) _ h1 in
    let (b, h3) = raise_if_ok (not (is_confirmed p.status)) _ _ h2 in
    let (c, h4) = raise_if_ok (ltb_ℤ (p.amount -ℤ already_claimed rs p.id) (pos n)) _ _ h3 in
    let e = ok_injective (sym h4) in
    (
      p,
      find_payment_ok payments key p found,
      ap (λ q. q.0) e ∙ ap (λ q. q.1 ∷ rs) (sym e),
      ap (λ q. q.1.id) e,
      ap (λ q. q.1.payment) e,
      ap (λ q. q.1.amount) e,
      c,
    )

weight_le : (k n : ℕ) (r : Refund) → r.amount ≡ pos n → weight k r ≤ n
weight_le k n r amount = let e : pos_part r.amount ≡ n = ap pos_part amount in ground (arith, e)

not_over : (d : ℤ) (n : ℕ) → ltb_ℤ d (pos n) ≡ false → n + neg_part d ≤ pos_part d
not_over d n h = ground (arith, h)

no_claims :
    (payments : List Payment) (k : ℕ) (p : Payment)
    → get payment_id k payments ≡ some p
    → All (λ x. neg_part x.amount ≡ 0) payments
    → already_claimed [] k ≤ℤ p.amount
unfolding already_claimed
no_claims payments k p found nonneg =
    omega (arith, get-All payment_id (λ x. neg_part x.amount ≡ 0) k p payments found nonneg)

request_keeps :
    (payments : List Payment) (rs rs' : List Refund) (key n : ℕ) (reason : String)
    (actor : Option ℕ) (r : Refund)
    → request_refund payments rs key (pos n) reason actor ≡ ok (rs', r)
    → Kept payments rs
    → Kept payments rs'
request_keeps payments rs rs' key n reason actor r h (u, nonneg, within) =
    let (p, found, saved, id_new, of, amount, fits) =
      request_refund-row payments rs rs' key n reason actor r h in
    let key_of : p.id ≡ key = get_key payment_id key p payments found in
    let nonneg' : All NonNegative (r ∷ rs) = (ap neg_part amount, nonneg) in
    subst (Kept payments) (sym saved) (
      UniqueKeys-insert refund_id r rs id_new u,
      nonneg',
      λ k q found'.
          let (a, b) = claimed_total k rs nonneg in
          let (c, d) = claimed_total k (r ∷ rs) nonneg' in
          elim (Bool-cases (r.payment == k)) [
            | inr e ↦ ground (arith, a, b, c, d, within k q found', e)
            | inl e ↦
                let k_is : key ≡ k = sym key_of ∙ sym of ∙ (==_iff r.payment k).0 e in
                let same : p ≡ q =
                  some_injective (sym found ∙ ap (λ x. get payment_id x payments) k_is ∙ found') in
                let of_k : p.id ≡ k = sym of ∙ (==_iff r.payment k).0 e in
                let fits' =
                  subst (λ i. ltb_ℤ (p.amount -ℤ already_claimed rs i) (pos n) ≡ false) of_k fits in
                let parts = -ℤ_parts p.amount (already_claimed rs k) in
                let own : weight k r ≤ n = weight_le k n r amount in
                let room = not_over (p.amount -ℤ already_claimed rs k) n fits' in
                subst (λ x. already_claimed (r ∷ rs) k ≤ℤ x.amount) same
                  (omega (arith, a, b, c, d, parts, own, room))
          ],
    )

Step-keeps :
    (payments : List Payment) {rs rs' : List Refund}
    → Step payments rs rs'
    → Kept payments rs
    → Kept payments rs'
Step-keeps payments (asks {rs} {rs'} key n reason actor r h) kept =
    request_keeps payments rs rs' key n reason actor r h kept
Step-keeps payments (decides {rs} {rs'} now old r approve actor notes g h) kept =
    let (next_to, saved) = decide_refund-Successor now rs rs' old r approve actor notes h in
    Successor-keeps payments rs rs' old r g next_to saved kept
Step-keeps payments (pays {rs} {rs'} now old r g h) kept =
    let (next_to, saved) = mark_refund_paid-Successor now rs rs' old r h in
    Successor-keeps payments rs rs' old r g next_to saved kept

Steps-keeps :
    (payments : List Payment) {rs rs' : List Refund}
    → Steps payments rs rs'
    → Kept payments rs
    → Kept payments rs'
Steps-keeps payments steps k =
    Run-keeps (Step payments) (Kept payments) (λ a b s k. Step-keeps payments s k) steps k

-- After any sequence of refund requests for amounts that are not negative, decisions and pay-outs,
-- from no refunds and over payments of amounts that are not negative, the refunds of a payment that
-- are not rejected total at most its amount.
pub refunds-WithinPayments :
    (payments : List Payment) (rs : List Refund)
    → All (λ p. neg_part p.amount ≡ 0) payments
    → Steps payments [] rs
    → WithinPayments payments rs
refunds-WithinPayments payments rs nonneg steps =
    let start : Kept payments [] =
      ((λ k. omega arith), tt, λ k p found. no_claims payments k p found nonneg) in
    (Steps-keeps payments steps start).2
