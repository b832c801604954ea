-- ===== src/Library.antt =====
-- Loans of library items: backend/apps/library/services.py, with backend/apps/library/models.py. Fines
-- are hundredths and rates are not negative; days and times are numbers.
pub mod Copies
pub mod Lost
use uni_acmis.Prelude.{
  ℕ, ◌+◌, ◌-◌, ◌*◌, String, Option, none, some, or_else, Bool, true, false, ◌&&◌, not, List, [],
  ◌∷◌, keep, count_if, sum_by, next_key, update_row, get, leb, ◌==◌, if◌then◌else◌, is_blank,
  Result, ok, err, ◌>>=◌, ◌>>◌, raise_if,
}

pub record LibraryItem : Type 0 where
  pub id : ℕ
  pub title : String
  pub total_copies : ℕ

pub data LoanStatus : Type 0 where
  active returned lost : LoanStatus

pub record Loan : Type 0 where
  pub id : ℕ
  pub item : ℕ
  pub borrower_student : Option ℕ
  pub borrower_staff : Option ℕ
  pub due_date : ℕ
  pub returned_at : Option ℕ
  pub status : LoanStatus
  pub fine_amount : ℕ
  pub currency : String
  pub fine_waived : Bool
  pub waived_by : Option ℕ
  pub waived_reason : String

-- what `_policy_defaults` gives
pub record Policy : Type 0 where
  pub loan_period_days : ℕ
  pub daily_fine_rate : ℕ
  pub currency : String

pub data LibraryError : Type 0 where
  no_copies_available exactly_one_borrower_required reason_required not_active item_not_found
        validation_error :
      LibraryError

abbrev pub item_id : LibraryItem → ℕ
item_id i = i.id

abbrev pub loan_id : Loan → ℕ
loan_id l = l.id

abbrev pub is_active : LoanStatus → Bool
is_active active = true
is_active returned = false
is_active lost = false

abbrev pub takes_copy : ℕ → Loan → Bool
takes_copy item_key l = (l.item == item_key) && is_active l.status

unfoldable pub copies_on_loan : List Loan → LibraryItem → ℕ
copies_on_loan loans item = count_if (takes_copy item.id) loans

unfoldable pub available_copies : List Loan → LibraryItem → ℕ
available_copies loans item = item.total_copies - copies_on_loan loans item

-- `bool(key)`
unfoldable pub truthy : Option ℕ → Bool
truthy none = false
truthy (some k) = not (k == 0)

abbrev pub same_truth : Bool → Bool → Bool
same_truth true b = b
same_truth false b = not b

abbrev pub find_item : List LibraryItem → ℕ → Result LibraryError LibraryItem
find_item items key = elim (get item_id key items) [ some i ↦ ok i | none ↦ err item_not_found ]

unfoldable pub checkout_item :
    List LibraryItem
    → Policy
    → (today : ℕ) → List Loan
    → (item_key : ℕ) → (borrower_student borrower_staff : Option ℕ) → (due_date : Option ℕ)
    → Result LibraryError (List Loan × Loan)
checkout_item items policy today loans item_key borrower_student borrower_staff due_date = do
  raise_if (same_truth (truthy borrower_student) (truthy borrower_staff))
      exactly_one_borrower_required
  item ← find_item items item_key
  raise_if (leb (available_copies loans item) 0) no_copies_available
  let loan : Loan = record {
    id = next_key loan_id loans;
    item = item.id;
    borrower_student = borrower_student;
    borrower_staff = borrower_staff;
    due_date = or_else due_date (today + policy.loan_period_days);
    returned_at = none;
    status = active;
    fine_amount = 0;
    currency = policy.currency;
    fine_waived = false;
    waived_by = none;
    waived_reason = "";
  }
  ok (loan ∷ loans, loan)

-- `Loan.clean`
abbrev pub clean_loan : Loan → Result LibraryError (Unit {0})
clean_loan l =
    raise_if (same_truth (truthy l.borrower_student) (truthy l.borrower_staff)) validation_error

-- `return_item` at a time, on a day
unfoldable pub return_item :
    Policy → (when day : ℕ) → List Loan → Loan → Result LibraryError (List Loan × Loan)
return_item policy when day loans loan = do
  raise_if (not (is_active loan.status)) not_active
  let l : Loan = record loan {
    status = returned;
    returned_at = some when;
    fine_amount = policy.daily_fine_rate * (day - loan.due_date);
  }
  clean_loan l
  ok (update_row loan_id l loans, l)

unfoldable pub mark_lost : List Loan → Loan → Result LibraryError (List Loan × Loan)
mark_lost loans loan = do
  raise_if (not (is_active loan.status)) not_active
  let l : Loan = record loan { status = lost }
  clean_loan l
  ok (update_row loan_id l loans, l)

unfoldable pub waive_fine :
    List Loan → Loan → Option ℕ → (reason : String) → Result LibraryError (List Loan × Loan)
waive_fine loans loan actor reason = do
  raise_if (is_blank reason) reason_required
  let l : Loan = record loan { fine_waived = true; waived_by = actor; waived_reason = reason }
  clean_loan l
  ok (update_row loan_id l loans, l)

-- `Loan.owed`
unfoldable pub owed : Loan → ℕ
owed l = if l.fine_waived then 0 else l.fine_amount

abbrev pub is_student : ℕ → Option ℕ → Bool
is_student s none = false
is_student s (some k) = k == s

unfoldable pub outstanding_fines_for_student : List Loan → ℕ → ℕ
outstanding_fines_for_student loans student_id =
    sum_by owed (keep (λ l. is_student student_id l.borrower_student && not l.fine_waived) loans)
