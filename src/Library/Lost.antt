-- ===== src/Library/Lost.antt =====
-- What becomes of the copy of a loan that is reported lost.
use uni_acmis.Prelude.{
  ◌+◌, ◌≤◌, ◌≡◌, sym, ap, some, not, List, arith, count_if-drops, get, update_row, UniqueKeys, ok,
  raise_if_ok, ok_injective,
}
use uni_acmis.Library.{
  LibraryItem, Loan, loan_id, lost, is_active, takes_copy, copies_on_loan, available_copies, truthy,
  same_truth, mark_lost,
}

-- A copy of an item that is reported lost becomes available again: while no more copies are out than the
-- item has, a loan marked as lost leaves one more available copy of its item than there was.
pub mark_lost-frees_copy :
    (loans loans' : List Loan) (old l : Loan) (item : LibraryItem)
    → UniqueKeys loan_id loans
    → get loan_id old.id loans ≡ some old
    → old.item ≡ item.id
    → copies_on_loan loans item ≤ item.total_copies
    → mark_lost loans old ≡ ok (loans', l)
    → available_copies loans' item ≡ available_copies loans item + 1
unfolding mark_lost available_copies copies_on_loan
mark_lost-frees_copy loans loans' old l item u g of within h =
    let (active, h1) = raise_if_ok (not (is_active old.status)) _ _ h in
    let (_, h2) =
      raise_if_ok (same_truth (truthy old.borrower_student) (truthy old.borrower_staff)) _ _ h1 in
    let r : Loan = record old { status = lost } in
    let same : update_row loan_id r loans ≡ loans' = ap (λ q. q.0) (ok_injective h2) in
    let fewer =
      count_if-drops loan_id (takes_copy item.id) r old loans u g (ground arith)
        (ground (arith, of, active)) in
    rw (sym same) (omega (arith, fewer, within))
