-- ===== src/Examples/Bills.antt =====
-- A run of the issue of invoices.
use uni_acmis.Prelude.{
  ℕ, ◌+◌, ◌≡◌, ◌⊎◌, refl, none, some, is_none, true, false, [], ◌∷◌, arith, map, sorted_by,
  text_length, concat_text, strip, before_mark, padded, ◌+ℤ◌, length, String, ℤ, pos,
}
use uni_acmis.Academics.Calendar.{Semester, get_semester}
use uni_acmis.Enrollment.{CourseRegistration, RegistrationStatus}
use uni_acmis.Registry.Lookups.{local, find_student}
use uni_acmis.Registry.Creation.{leading_year}
use uni_acmis.Core.Sequences.{allocate}
use uni_acmis.Hostel.{fee_for_active_allocation}
use uni_acmis.Decimal.{half_even}
use uni_acmis.Examples.Records.{ayen}
use uni_acmis.Finance.Billing.{
  FeeStructure, Scholarship, percentage, Catalogue, Books, generate_invoices_for_semester, roll_of,
  generate_invoices, generate_invoice, issue_invoice, applicable_fee_structure,
  scholarship_discount, discount_for, generate_invoice_number, is_clean_invoice, same_residency,
  share_of,
}
use uni_acmis.Finance.Billing.Rolls.{OneBillEach, Complete, generate_invoices_for_semester-complete}

abbrev term : Semester
term = record {
  id = 2;
  name = "First";
  academic_year = 1;
  teaching_end = 95;
  exam_start = none;
  exam_end = none;
  registration_opens = none;
  registration_closes = none;
  add_drop_closes = none;
  is_current = true;
}

abbrev tuition : FeeStructure
tuition = record {
  id = 1;
  programme = 1;
  academic_year = 1;
  level = 1;
  residency = local;
  amount = pos 500000;
  currency = "SSP";
  is_active = true;
}

abbrev award : Scholarship
award = record {
  student = 1;
  academic_year = 1;
  coverage_type = percentage;
  percentage = some 2500;
  fixed_amount = none;
  currency = "SSP";
  is_active = true;
}

abbrev catalogue : Catalogue
catalogue = record {
  semesters = term ∷ [];
  year_names = (1, "2026/2027") ∷ [];
  students = ayen ∷ [];
  structures = tuition ∷ [];
  scholarships = award ∷ [];
  allocations = [];
  hostel_fee = none;
}

abbrev enrolment : CourseRegistration
enrolment = record {
  id = 1;
  student = 1;
  course = 7;
  semester = 2;
  status = RegistrationStatus.registered;
  is_repeat = false;
  registered_by = none;
  dropped_at = none;
  drop_reason = "";
  hold_override_by = none;
  override_reason = "";
  completed_by = none;
  completed_at = none;
}

abbrev books : Books
books = record { invoices = []; sequences = [] }

-- a quarter of the tuition is covered
ayen_billed :
    map {B = ℕ × String × ℤ × ℤ}
      (λ i. (i.student, i.invoice_number, i.amount, i.discount_amount))
      (generate_invoices_for_semester catalogue (enrolment ∷ []) 2 books).books.invoices
    ≡ (1, "INV/2026/00001", pos 500000, pos 125000) ∷ []
unfolding generate_invoices_for_semester generate_invoices generate_invoice issue_invoice
    applicable_fee_structure scholarship_discount discount_for generate_invoice_number
    is_clean_invoice same_residency share_of roll_of sorted_by get_semester find_student text_length
    concat_text leading_year strip before_mark padded allocate ◌+ℤ◌ fee_for_active_allocation
    half_even
ayen_billed = refl

generate_invoices_for_semester-complete_example :
    OneBillEach (generate_invoices_for_semester catalogue (enrolment ∷ []) 2 books).books.invoices
    × (length (generate_invoices_for_semester catalogue (enrolment ∷ []) 2 books).books.invoices
        ≡ 0 + (generate_invoices_for_semester catalogue (enrolment ∷ []) 2 books).created)
    × ((is_none (generate_invoices_for_semester catalogue (enrolment ∷ []) 2 books).failed ≡ false)
        ⊎ Complete 2
            (roll_of (enrolment ∷ []) 2)
            (generate_invoices_for_semester catalogue (enrolment ∷ []) 2 books))
generate_invoices_for_semester-complete_example =
    generate_invoices_for_semester-complete catalogue (enrolment ∷ []) 2 books (λ s t. omega arith)
