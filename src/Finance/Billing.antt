-- ===== src/Finance/Billing.antt =====
-- The issue of invoices: fee structures, scholarships, `generate_invoice` and the batch run over a
-- semester, of backend/apps/finance/services.py, with models.py and id_generation.py.
pub mod Rolls
use uni_acmis.Prelude.{
  ℕ, ◌+◌, ◌*◌, ◌^◌, String, Option, none, some, or_else, Bool, true, false, ◌&&◌, ◌||◌, not, List,
  [], ◌∷◌, map, keep, any, distinct, find_first, get, next_key, ltb, leb, ◌==◌, if◌then◌else◌,
  sorted_by, concat_text, padded, text_length, Result, ok, err, ◌>>=◌, ◌>>◌, raise_if, ℤ, pos,
  negsuc, pos_part, neg_part, ◌+ℤ◌, leb_ℤ, ltb_ℤ,
}
use text.Mathlib.Text.{◌==◌ as str_eq}
use uni_acmis.Decimal.{half_even}
use uni_acmis.Academics.Calendar.{Semester, get_semester}
use uni_acmis.Core.Sequences.{IdSequence, allocate}
use uni_acmis.Enrollment.{CourseRegistration, is_registered}
use uni_acmis.Hostel.{Allocation, fee_for_active_allocation}
use uni_acmis.Registry.{Student, fits_column}
use uni_acmis.Registry.Creation.{leading_year}
use uni_acmis.Registry.Lookups.{Residency, local, international, find_student, residency_of}
use uni_acmis.Finance.Ledger.{Invoice, invoice_id, issued}

pub record FeeStructure : Type 0 where
  pub id : ℕ
  pub programme : ℕ
  pub academic_year : ℕ
  pub level : ℕ
  pub residency : Residency
  pub amount : ℤ
  pub currency : String
  pub is_active : Bool

pub data CoverageType : Type 0 where
  percentage fixed_amount : CoverageType

-- percentages are in hundredths
pub record Scholarship : Type 0 where
  pub student : ℕ
  pub academic_year : ℕ
  pub coverage_type : CoverageType
  pub percentage : Option ℕ
  pub fixed_amount : Option ℤ
  pub currency : String
  pub is_active : Bool

-- why an invoice cannot be made out; `broken_scholarship` is the `TypeError` of a percentage that is
-- missing
pub data IssueError : Type 0 where
  not_configured not_found validation_error broken_scholarship : IssueError

pub data BillingError : Type 0 where
  duplicate_invoice : BillingError
  not_issued : IssueError → BillingError

-- what the run reads of finance and of other modules
pub record Catalogue : Type 0 where
  pub semesters : List Semester
  pub year_names : List (ℕ × String)
  pub students : List Student
  pub structures : List FeeStructure
  pub scholarships : List Scholarship
  pub allocations : List Allocation
  pub hostel_fee : Option ℤ

-- what it writes
pub record Books : Type 0 where
  pub invoices : List Invoice
  pub sequences : List IdSequence

abbrev pub or_raise : {A : Type 0} → Option A → IssueError → Result IssueError A
or_raise none e = err e
or_raise (some a) e = ok a

unfoldable pub same_residency : Residency → Residency → Bool
same_residency local local = true
same_residency international international = true
same_residency _ _ = false

unfoldable pub applicable_fee_structure :
    List FeeStructure → (programme_id academic_year_id level : ℕ) → Residency → Option FeeStructure
applicable_fee_structure structures programme_id academic_year_id level residency =
    find_first
      (λ f.
        (f.programme == programme_id)
        && (f.academic_year == academic_year_id)
        && (f.level == level)
        && same_residency f.residency residency
        && f.is_active)
      structures

abbrev pub minus : ℕ → ℤ
minus ℕ.zero = pos 0
minus (ℕ.suc n) = negsuc n

-- `(amount * percentage / 100).quantize(0.01)`, in hundredths
unfoldable pub share_of : ℤ → (percentage : ℕ) → ℤ
share_of (pos n) p = pos (half_even (n * p) 10000)
share_of (negsuc n) p = minus (half_even ((n + 1) * p) 10000)

abbrev pub min_ℤ : ℤ → ℤ → ℤ
min_ℤ a b = if ltb_ℤ b a then b else a

-- the amount that a coverage gives, before the cap
abbrev pub covered : CoverageType → Option ℕ → Option ℤ → (amount : ℤ) → Option ℤ
covered percentage none fixed amount = none
covered percentage (some p) fixed amount = some (share_of amount p)
covered fixed_amount p fixed amount = some (or_else fixed (pos 0))

abbrev pub capped : (amount : ℤ) → Option ℤ → Option ℤ
capped amount none = none
capped amount (some d) = some (min_ℤ d amount)

unfoldable pub discount_for : Scholarship → (amount : ℤ) → Option ℤ
discount_for s amount =
    if not s.is_active
    then some (pos 0)
    else capped amount (covered s.coverage_type s.percentage s.fixed_amount amount)

-- the discount of a student's active scholarship for a year, if there is one
unfoldable pub scholarship_discount :
    List Scholarship → (student_id academic_year_id : ℕ) → (amount : ℤ) → Option ℤ
scholarship_discount scholarships student_id academic_year_id amount =
    elim (find_first
      (λ (s : Scholarship).
        (s.student == student_id) && ((s.academic_year == academic_year_id) && s.is_active))
      scholarships) [ none ↦ some (pos 0) | some s ↦ discount_for s amount ]

unfoldable pub generate_invoice_number :
    List IdSequence → (academic_year_name : String) → List IdSequence × String
generate_invoice_number sequences academic_year_name =
    let year = leading_year academic_year_name in
    let next = allocate sequences (concat_text ("invoice_no:" ∷ year ∷ [])) in
    (next.0, concat_text ("INV/" ∷ year ∷ "/" ∷ padded 5 next.1 ∷ []))

abbrev pub fits_money : ℤ → Bool
fits_money z = ltb (pos_part z + neg_part z) (10 ^ 16)

abbrev pub bills : (student_id semester_id : ℕ) → Invoice → Bool
bills student_id semester_id i = (i.student == student_id) && (i.semester == semester_id)

-- `Invoice.full_clean`
unfoldable pub is_clean_invoice : List Invoice → Invoice → Bool
is_clean_invoice invoices i =
    fits_column i.invoice_number 40
    && not (any (λ j. str_eq j.invoice_number i.invoice_number) invoices)
    && not (any (bills i.student i.semester) invoices)
    && fits_money i.amount
    && fits_money i.discount_amount
    && leb_ℤ i.discount_amount i.amount

abbrev pub found : {A E : Type 0} → Result E A → Result IssueError A
found (ok a) = ok a
found (err e) = err not_found

abbrev pub invoice_of :
    (id student_id semester_id : ℕ)
    → Semester
    → FeeStructure
    → (hostel_fee discount : ℤ) → (invoice_number : String) → (due_date : Option ℕ) → Invoice
invoice_of id student_id semester_id semester structure hostel_fee discount invoice_number
      due_date =
    record {
      id = id;
      student = student_id;
      semester = semester_id;
      invoice_number = invoice_number;
      due_date = or_else due_date semester.teaching_end;
      amount = structure.amount +ℤ hostel_fee;
      discount_amount = discount;
      currency = structure.currency;
      status = issued;
    }

-- the invoice of a student who has none for the semester
unfoldable pub issue_invoice :
    Catalogue
    → Books
    → (student_id semester_id : ℕ) → (due_date : Option ℕ) → Result IssueError (Books × Invoice)
issue_invoice db b student_id semester_id due_date = do
  semester ← found (get_semester db.semesters semester_id)
  s ← found (find_student db.students student_id)
  structure ←
      or_raise
        (applicable_fee_structure db.structures s.programme semester.academic_year s.current_level
          (residency_of s.nationality))
        not_configured
  let hostel_fee =
      fee_for_active_allocation db.hostel_fee db.allocations student_id semester.academic_year
  discount ←
      or_raise
        (scholarship_discount db.scholarships student_id semester.academic_year structure.amount)
        broken_scholarship
  year ← or_raise (find_first (λ y. y.0 == semester.academic_year) db.year_names) not_found
  let numbered = generate_invoice_number b.sequences year.1
  let i =
      invoice_of (next_key invoice_id b.invoices) student_id semester_id semester structure
        hostel_fee discount numbered.1 due_date
  raise_if (not (is_clean_invoice b.invoices i)) validation_error
  ok (record { invoices = i ∷ b.invoices; sequences = numbered.0 }, i)

abbrev pub lift_issue : {A : Type 0} → Result IssueError A → Result BillingError A
lift_issue (ok a) = ok a
lift_issue (err e) = err (not_issued e)

unfoldable pub generate_invoice :
    Catalogue
    → Books
    → (student_id semester_id : ℕ) → (due_date : Option ℕ) → Result BillingError (Books × Invoice)
generate_invoice db b student_id semester_id due_date = do
  raise_if (any (bills student_id semester_id) b.invoices) duplicate_invoice
  lift_issue (issue_invoice db b student_id semester_id due_date)

-- `students_registered_in`, sorted
unfoldable pub roll_of : List CourseRegistration → (semester_id : ℕ) → List ℕ
roll_of registrations semester_id = sorted_by leb (
    distinct (
      map (λ r. r.student)
        (keep (λ r. (r.semester == semester_id) && is_registered r.status) registrations)))

-- what a run leaves: the books, the count of invoices, the students left out with the reason, and the
-- error that ended it, if one did; invoices that were issued before an error stay
pub record BatchRun : Type 0 where
  pub books : Books
  pub created : ℕ
  pub skipped : List (ℕ × BillingError)
  pub failed : Option IssueError

abbrev pub add_created : BatchRun → BatchRun
add_created r = record r { created = r.created + 1 }

abbrev pub add_skipped : ℕ → BillingError → BatchRun → BatchRun
add_skipped student_id e r = record r { skipped = (student_id, e) ∷ r.skipped }

abbrev pub stopped : Books → IssueError → BatchRun
stopped b e = record { books = b; created = 0; skipped = []; failed = some e }

-- one student, then the rest of the roll from the books that this leaves
abbrev pub bill_one :
    (student_id : ℕ) → Books → Result BillingError (Books × Invoice) → (Books → BatchRun) → BatchRun
bill_one student_id b (ok made) rest = add_created (rest made.0)
bill_one student_id b (err duplicate_invoice) rest =
    add_skipped student_id duplicate_invoice (rest b)
bill_one student_id b (err (not_issued not_configured)) rest =
    add_skipped student_id (not_issued not_configured) (rest b)
bill_one student_id b (err (not_issued not_found)) rest = stopped b not_found
bill_one student_id b (err (not_issued validation_error)) rest = stopped b validation_error
bill_one student_id b (err (not_issued broken_scholarship)) rest = stopped b broken_scholarship

unfoldable pub generate_invoices : Catalogue → (semester_id : ℕ) → List ℕ → Books → BatchRun
generate_invoices db semester_id [] b = record {
  books = b;
  created = 0;
  skipped = [];
  failed = none;
}
generate_invoices db semester_id (student_id ∷ students) b =
    bill_one student_id b (generate_invoice db b student_id semester_id none)
      (generate_invoices db semester_id students)

unfoldable pub generate_invoices_for_semester :
    Catalogue → List CourseRegistration → (semester_id : ℕ) → Books → BatchRun
generate_invoices_for_semester db registrations semester_id b =
    generate_invoices db semester_id (roll_of registrations semester_id) b
