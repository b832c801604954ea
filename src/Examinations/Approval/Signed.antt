-- ===== src/Examinations/Approval/Signed.antt =====
-- The approval of results as a state machine.
use mathlib.Core.Path.{subst}
use uni_acmis.Prelude.{
  Run, Run-keeps, ℕ, ◌≡◌, ◌⊎◌, inl, inr, refl, sym, ◌∙◌, ap, String, Option, none, some, Bool, true,
  false, List, [], ◌∷◌, arith, update_row, is_none, is_blank, get, Result, ok, bind_ok, raise_if_ok,
  ok_injective, All, Bool-cases, if◌then◌else◌, ◌==◌,
}
use uni_acmis.Examinations.Approval.{
  ApprovalStatus, pending, approved, rejected, published, ResultApproval, approval_id, resubmit,
  submit_at, submit_for_approval, must_be_pending, must_be_approved, approve_results,
  reject_results, publish_results,
}

abbrev Rows : Type 0
Rows = List ResultApproval

-- one operation of the service on the table, on a stored row where it takes one
pub data Step : Rows → Rows → Type 0 where
  submits :
      {rows rows' : Rows} (semester_id : ℕ) (programme_id : Option ℕ) (a : ResultApproval)
      → submit_for_approval rows semester_id programme_id ≡ ok (rows', a)
      → Step rows rows'
  approves :
      {rows rows' : Rows} (now : ℕ) (old a : ResultApproval) (actor : Option ℕ) (notes : String)
      → get approval_id old.id rows ≡ some old
      → approve_results now rows old actor notes ≡ ok (rows', a)
      → Step rows rows'
  rejects :
      {rows rows' : Rows} (old a : ResultApproval) (notes : String)
      → get approval_id old.id rows ≡ some old
      → reject_results rows old notes ≡ ok (rows', a)
      → Step rows rows'
  publishes :
      {rows rows' : Rows} (now : ℕ) (old a : ResultApproval) (actor : Option ℕ)
      → get approval_id old.id rows ≡ some old
      → publish_results now rows old actor ≡ ok (rows', a)
      → Step rows rows'

abbrev pub Steps : Rows → Rows → Type 0
Steps = Run Step

-- whether results in a status must have been approved
abbrev pub needs_approval : ApprovalStatus → Bool
needs_approval pending = false
needs_approval approved = true
needs_approval rejected = false
needs_approval published = true

-- approved or published results name the time of their approval
abbrev Signed : ResultApproval → Type 0
Signed a = needs_approval a.status ≡ true → is_none a.approved_at ≡ false

update_row-All :
    (a : ResultApproval) (rows : Rows)
    → Signed a
    → All Signed rows
    → All Signed (update_row approval_id a rows)
update_row-All a [] h k = tt
update_row-All a (x ∷ rows) h k = elim (Bool-cases (x.id == a.id)) [
  | inl e ↦ (subst (λ b. Signed (if b then a else x)) (sym e) h, update_row-All a rows h k.1)
  | inr e ↦ (subst (λ b. Signed (if b then a else x)) (sym e) k.0, update_row-All a rows h k.1)
]

get-All :
    (k : ℕ) (a : ResultApproval) (rows : Rows)
    → get approval_id k rows ≡ some a
    → All Signed rows
    → Signed a
get-All k a [] h s = absurd (ground arith)
get-All k a (x ∷ rows) h s = elim (Bool-cases (x.id == k)) [
  | inl e ↦ let same : x ≡ a = ground (arith, e, h) in subst Signed same s.0
  | inr e ↦ get-All k a rows (rw e at h) s.1
]

-- what a save leaves, where the saved row is signed
abbrev Saved : Rows → Rows → ResultApproval → Type 0
Saved rows rows' a = Signed a × ((rows' ≡ update_row approval_id a rows) ⊎ (rows' ≡ a ∷ rows))

Saved-All :
    (rows rows' : Rows) (a : ResultApproval)
    → Saved rows rows' a
    → All Signed rows
    → All Signed rows'
Saved-All rows rows' a (h, inl e) k = subst (All Signed) (sym e) (update_row-All a rows h k)
Saved-All rows rows' a (h, inr e) k = subst (All Signed) (sym e) (h, k)

-- a row that needs no approval in its status
unsigned : (a : ResultApproval) → needs_approval a.status ≡ false → Signed a
unsigned a h k = ground (arith, h, k)

Saved-by :
    (rows : Rows) {rows' : Rows} {a b : ResultApproval} {E : Type 0}
    → ◌≡◌ {A = Result E (Rows × ResultApproval)}
        (ok (update_row approval_id b rows, b))
        (ok (rows', a))
    → Signed b
    → Saved rows rows' a
Saved-by rows {b = b} h s =
    let e = ok_injective h in
    (
      subst Signed (ap (λ q. q.1) e) s,
      inl (sym (ap (λ q. q.0) e) ∙ ap (λ q. update_row approval_id q.1 rows) e),
    )

resubmit-Saved :
    (rows rows' : Rows) (old a : ResultApproval)
    → resubmit rows old ≡ ok (rows', a)
    → Saved rows rows' a
unfolding resubmit
resubmit-Saved rows rows' old a h = go old.status refl
  where
    go : (st : ApprovalStatus) → old.status ≡ st → Saved rows rows' a
    go pending e = Saved-by rows (rw e at h) (λ k. ground (arith, k))
    go rejected e = Saved-by rows (rw e at h) (λ k. ground (arith, k))
    go approved e = absurd (ground (arith, rw e at h))
    go published e = absurd (ground (arith, rw e at h))

submit_at-Saved :
    (rows rows' : Rows) (semester_id : ℕ) (programme_id : Option ℕ) (o : Option ResultApproval)
    (a : ResultApproval)
    → submit_at rows semester_id programme_id o ≡ ok (rows', a)
    → Saved rows rows' a
unfolding submit_at
submit_at-Saved rows rows' semester_id programme_id (some old) a h =
    resubmit-Saved rows rows' old a h
submit_at-Saved rows rows' semester_id programme_id none a h =
    let e = ok_injective h in
    (
      subst Signed (ap (λ q. q.1) e) (λ k. ground (arith, k)),
      inr (sym (ap (λ q. q.0) e) ∙ ap (λ q. q.1 ∷ rows) e),
    )

approve-Saved :
    (now : ℕ) (rows rows' : Rows) (old a : ResultApproval) (actor : Option ℕ) (notes : String)
    → approve_results now rows old actor notes ≡ ok (rows', a)
    → Saved rows rows' a
unfolding approve_results
approve-Saved now rows rows' old a actor notes h =
    let (u, e, h1) = bind_ok (must_be_pending old.status) _ h in Saved-by rows h1 (λ k. refl)

reject-Saved :
    (rows rows' : Rows) (old a : ResultApproval) (notes : String)
    → reject_results rows old notes ≡ ok (rows', a)
    → Saved rows rows' a
unfolding reject_results
reject-Saved rows rows' old a notes h =
    let (b, h1) = raise_if_ok (is_blank notes) _ _ h in
    let (u, e, h2) = bind_ok (must_be_pending old.status) _ h1 in
    Saved-by rows h2 (λ k. ground (arith, k))

must_be_approved-needs :
    (st : ApprovalStatus) → must_be_approved st ≡ ok tt → needs_approval st ≡ true
must_be_approved-needs pending h = ground arith
must_be_approved-needs approved h = refl
must_be_approved-needs rejected h = ground arith
must_be_approved-needs published h = refl

publish-Saved :
    (now : ℕ) (rows rows' : Rows) (old a : ResultApproval) (actor : Option ℕ)
    → Signed old
    → publish_results now rows old actor ≡ ok (rows', a)
    → Saved rows rows' a
unfolding publish_results
publish-Saved now rows rows' old a actor signed h =
    let (u, e, h1) = bind_ok (must_be_approved old.status) _ h in
    Saved-by rows h1 (λ k. signed (must_be_approved-needs old.status e))

Step-Signed : {rows rows' : Rows} → Step rows rows' → All Signed rows → All Signed rows'
unfolding submit_for_approval
Step-Signed (submits {rows} {rows'} semester programme a h) k =
    Saved-All rows rows' a (submit_at-Saved rows rows' semester programme _ a h) k
Step-Signed (approves {rows} {rows'} now old a actor notes g h) k =
    Saved-All rows rows' a (approve-Saved now rows rows' old a actor notes h) k
Step-Signed (rejects {rows} {rows'} old a notes g h) k =
    Saved-All rows rows' a (reject-Saved rows rows' old a notes h) k
Step-Signed (publishes {rows} {rows'} now old a actor g h) k =
    Saved-All rows rows' a
      (publish-Saved now rows rows' old a actor (get-All old.id old rows g k) h) k

Steps-Signed : {rows rows' : Rows} → Steps rows rows' → All Signed rows → All Signed rows'
Steps-Signed steps k = Run-keeps Step (All Signed) (λ a b s k. Step-Signed s k) steps k

-- Results that are approved or published after any sequence of submissions, approvals, rejections and
-- publications, on stored rows and from an empty table, carry the time at which they were approved.
pub published_were_approved :
    (rows : Rows)
    → Steps [] rows
    → All (λ a. needs_approval a.status ≡ true → is_none a.approved_at ≡ false) rows
published_were_approved rows steps = Steps-Signed steps tt
