-- ===== src/Library/Copies.antt =====
-- No more copies are out than there are.
use mathlib.Core.Path.{subst}
use uni_acmis.Prelude.{
  Run, Run-keeps, ℕ, ◌-◌, ◌≤◌, ◌≡◌, ◌⊎◌, refl, sym, ◌∙◌, ap, String, Option, some, some_injective,
  false, not, List, [], ◌∷◌, arith, count_if, count_if-update_row, count_if-keeps, get, get_key,
  next_key, update_row, UniqueKeys, UniqueKeys-insert, UniqueKeys-update_row, leb, Bool-cases,
  Option-cases, inl, inr, ok, bind_ok, raise_if_ok, ok_injective, ◌==◌, ==_iff, is_blank,
}
use uni_acmis.Library.{
  LibraryItem, Loan, Policy, item_id, loan_id, is_active, takes_copy, copies_on_loan,
  available_copies, truthy, same_truth, find_item, checkout_item, return_item, mark_lost,
  waive_fine,
}

pub data Step (items : List LibraryItem) (policy : Policy) : List Loan → List Loan → Type 0 where
  checks_out :
      {loans loans' : List Loan} (today item_key : ℕ) (student staff due_date : Option ℕ) (l : Loan)
      → checkout_item items policy today loans item_key student staff due_date ≡ ok (loans', l)
      → Step items policy loans loans'
  returns :
      {loans loans' : List Loan} (when day : ℕ) (old l : Loan)
      → get loan_id old.id loans ≡ some old
      → return_item policy when day loans old ≡ ok (loans', l)
      → Step items policy loans loans'
  loses :
      {loans loans' : List Loan} (old l : Loan)
      → get loan_id old.id loans ≡ some old
      → mark_lost loans old ≡ ok (loans', l)
      → Step items policy loans loans'
  waives :
      {loans loans' : List Loan} (old l : Loan) (actor : Option ℕ) (reason : String)
      → get loan_id old.id loans ≡ some old
      → waive_fine loans old actor reason ≡ ok (loans', l)
      → Step items policy loans loans'

abbrev pub Steps : (items : List LibraryItem) (policy : Policy) → List Loan → List Loan → Type 0
Steps items policy = Run (Step items policy)

-- of no item are more copies out than the library has
abbrev pub WithinCopies : List LibraryItem → List Loan → Type 0
WithinCopies items loans =
    (k : ℕ) (i : LibraryItem)
    → get item_id k items ≡ some i
    → copies_on_loan loans i ≤ i.total_copies

abbrev Kept : List LibraryItem → List Loan → Type 0
Kept items loans = UniqueKeys loan_id loans × WithinCopies items loans

find_item_ok :
    (items : List LibraryItem) (key : ℕ) (i : LibraryItem)
    → find_item items key ≡ ok i
    → get item_id key items ≡ some i
find_item_ok items key i h = elim (Option-cases (get item_id key items)) [
  | inl e ↦ absurd (ground (arith, e, h))
  | inr (q, e) ↦ ground (arith, e, h)
]

checkout_item-row :
    (items : List LibraryItem) (policy : Policy) (today : ℕ) (loans loans' : List Loan)
    (item_key : ℕ) (student staff due_date : Option ℕ) (l : Loan)
    → checkout_item items policy today loans item_key student staff due_date ≡ ok (loans', l)
    → (i : LibraryItem) × (get item_id item_key items ≡ some i)
      × (loans' ≡ l ∷ loans)
      × (l.id ≡ next_key loan_id loans)
      × (l.item ≡ i.id)
      × (leb (available_copies loans i) 0 ≡ false)
unfolding checkout_item
checkout_item-row items policy today loans loans' key student staff due l h =
    let (one, h1) = raise_if_ok (same_truth (truthy student) (truthy staff)) _ _ h in
    let (i, found, h2) = bind_ok (find_item items key) _ h1 in
    let (free, h3) = raise_if_ok (leb (available_copies loans i) 0) _ _ h2 in
    let e = ok_injective (sym h3) in
    (
      i,
      find_item_ok items key i found,
      ap (λ q. q.0) e ∙ ap (λ q. q.1 ∷ loans) (sym e),
      ap (λ q. q.1.id) e,
      ap (λ q. q.1.item) e,
      free,
    )

copies_after :
    (loans : List Loan) (l : Loan) (i other : LibraryItem) (k key : ℕ)
    → i.id ≡ key
    → other.id ≡ k
    → (key ≡ k → i ≡ other)
    → l.item ≡ i.id
    → leb (available_copies loans i) 0 ≡ false
    → copies_on_loan loans other ≤ other.total_copies
    → copies_on_loan (l ∷ loans) other ≤ other.total_copies
unfolding copies_on_loan available_copies
copies_after loans l i other k key e f same of free within =
    elim (Bool-cases (l.item == other.id)) [
      | inr apart ↦ ground (arith, apart, within)
      | inl here ↦
          let one : i ≡ other = same (sym e ∙ sym of ∙ (==_iff l.item other.id).0 here ∙ f) in
          let free' =
            subst (λ r. leb (r.total_copies - count_if (takes_copy r.id) loans) 0 ≡ false) one
              free in
          ground (arith, free', within)
    ]

checkout_keeps :
    (items : List LibraryItem) (policy : Policy) (today : ℕ) (loans loans' : List Loan)
    (item_key : ℕ) (student staff due_date : Option ℕ) (l : Loan)
    → checkout_item items policy today loans item_key student staff due_date ≡ ok (loans', l)
    → Kept items loans
    → Kept items loans'
checkout_keeps items policy today loans loans' key student staff due l h (u, within) =
    let (i, found, saved, id_new, of, free) =
      checkout_item-row items policy today loans loans' key student staff due l h in
    subst (Kept items) (sym saved) (
      UniqueKeys-insert loan_id l loans id_new u,
      λ k other found'.
          copies_after loans l i other k key (get_key item_id key i items found)
            (get_key item_id k other items found')
            (λ e. some_injective (sym found ∙ ap (λ x. get item_id x items) e ∙ found')) of free
            (within k other found'),
    )

-- a save of a loan that takes a copy only if the stored one did
save_keeps :
    (items : List LibraryItem) (loans : List Loan) (l old : Loan)
    → get loan_id l.id loans ≡ some old
    → ((k : ℕ) → (takes_copy k l ≡ false) ⊎ (takes_copy k l ≡ takes_copy k old))
    → Kept items loans
    → Kept items (update_row loan_id l loans)
unfolding copies_on_loan
save_keeps items loans l old g less (u, within) = (
  UniqueKeys-update_row loan_id l loans u,
  λ k i found. elim (less i.id) [
    | inl out ↦
        omega (
          arith,
          within k i found,
          count_if-update_row loan_id (takes_copy i.id) l old loans u g out,
        )
    | inr same ↦
        omega
          (arith, within k i found, count_if-keeps loan_id (takes_copy i.id) l old loans u g same)
  ],
)

return_keeps :
    (items : List LibraryItem) (policy : Policy) (when day : ℕ) (loans loans' : List Loan)
    (old l : Loan)
    → get loan_id old.id loans ≡ some old
    → return_item policy when day loans old ≡ ok (loans', l)
    → Kept items loans
    → Kept items loans'
unfolding return_item
return_keeps items policy when day loans loans' old l g h kept =
    let (a, h1) = raise_if_ok (not (is_active old.status)) _ _ h in
    let (_, h2) =
      raise_if_ok (same_truth (truthy old.borrower_student) (truthy old.borrower_staff)) _ _ h1 in
    subst (Kept items) (ap (λ q. q.0) (ok_injective h2))
      (save_keeps items loans _ old g (λ k. inl (ground arith)) kept)

lost_keeps :
    (items : List LibraryItem) (loans loans' : List Loan) (old l : Loan)
    → get loan_id old.id loans ≡ some old
    → mark_lost loans old ≡ ok (loans', l)
    → Kept items loans
    → Kept items loans'
unfolding mark_lost
lost_keeps items loans loans' old l g h kept =
    let (a, h1) = raise_if_ok (not (is_active old.status)) _ _ h in
    let (_, h2) =
      raise_if_ok (same_truth (truthy old.borrower_student) (truthy old.borrower_staff)) _ _ h1 in
    subst (Kept items) (ap (λ q. q.0) (ok_injective h2))
      (save_keeps items loans _ old g (λ k. inl (ground arith)) kept)

waive_keeps :
    (items : List LibraryItem) (loans loans' : List Loan) (old l : Loan) (actor : Option ℕ)
    (reason : String)
    → get loan_id old.id loans ≡ some old
    → waive_fine loans old actor reason ≡ ok (loans', l)
    → Kept items loans
    → Kept items loans'
unfolding waive_fine
waive_keeps items loans loans' old l actor reason g h kept =
    let (a, h1) = raise_if_ok (is_blank reason) _ _ h in
    let (_, h2) =
      raise_if_ok (same_truth (truthy old.borrower_student) (truthy old.borrower_staff)) _ _ h1 in
    subst (Kept items) (ap (λ q. q.0) (ok_injective h2))
      (save_keeps items loans _ old g (λ k. inr refl) kept)

Step-keeps :
    (items : List LibraryItem) (policy : Policy) {loans loans' : List Loan}
    → Step items policy loans loans'
    → Kept items loans
    → Kept items loans'
Step-keeps items policy (checks_out {loans} {loans'} today key student staff due l h) kept =
    checkout_keeps items policy today loans loans' key student staff due l h kept
Step-keeps items policy (returns {loans} {loans'} when day old l g h) kept =
    return_keeps items policy when day loans loans' old l g h kept
Step-keeps items policy (loses {loans} {loans'} old l g h) kept =
    lost_keeps items loans loans' old l g h kept
Step-keeps items policy (waives {loans} {loans'} old l actor reason g h) kept =
    waive_keeps items loans loans' old l actor reason g h kept

Steps-keeps :
    (items : List LibraryItem) (policy : Policy) {loans loans' : List Loan}
    → Steps items policy loans loans'
    → Kept items loans
    → Kept items loans'
Steps-keeps items policy steps k =
    Run-keeps (Step items policy) (Kept items) (λ a b s k. Step-keeps items policy s k) steps k

empty_copies :
    (items : List LibraryItem) (k : ℕ) (i : LibraryItem)
    → get item_id k items ≡ some i
    → copies_on_loan [] i ≤ i.total_copies
unfolding copies_on_loan
empty_copies items k i found = omega arith

-- After any sequence of check-outs, and of returns, losses and waivers of stored loans, from no loans
-- and while the catalogue stays as it is, no item has more active loans than copies.
pub loans-WithinCopies :
    (items : List LibraryItem) (policy : Policy) (loans : List Loan)
    → Steps items policy [] loans
    → WithinCopies items loans
loans-WithinCopies items policy loans steps =
    (Steps-keeps items policy steps ((λ k. omega arith), empty_copies items)).1
