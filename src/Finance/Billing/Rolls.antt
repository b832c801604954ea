-- ===== src/Finance/Billing/Rolls.antt =====
-- What a batch run of invoices leaves.
use mathlib.Core.Path.{subst}
use uni_acmis.Prelude.{
  ℕ, ◌+◌, ◌≤◌, ◌≡◌, ◌⊎◌, refl, sym, ◌∙◌, ap, Option, none, is_none, Bool, true, false, ◌&&◌, ◌||◌,
  not, List, [], ◌∷◌, arith, ◌==◌, Bool-cases, inl, inr, any, next_key, count_if, length,
  find_first, All, Result, ok, err, raise_if_ok, bind_ok, ok_injective,
}
use uni_acmis.Academics.Calendar.{get_semester}
use uni_acmis.Enrollment.{CourseRegistration}
use uni_acmis.Registry.Lookups.{find_student, residency_of}
use uni_acmis.Finance.Ledger.{Invoice, invoice_id}
use uni_acmis.Hostel.{fee_for_active_allocation}
use uni_acmis.Finance.Billing.{
  IssueError, BillingError, not_issued, lift_issue, duplicate_invoice, not_configured, not_found,
  validation_error, broken_scholarship, Catalogue, Books, or_raise, found, bills, invoice_of,
  generate_invoice_number, issue_invoice, generate_invoice, is_clean_invoice, scholarship_discount,
  applicable_fee_structure, roll_of, BatchRun, stopped, add_skipped, bill_one, generate_invoices,
  generate_invoices_for_semester,
}

-- no student has two invoices for a semester
abbrev pub OneBillEach : List Invoice → Type 0
OneBillEach invoices = (s t : ℕ) → count_if (bills s t) invoices ≤ 1

none-count :
    (p : Invoice → Bool) (invoices : List Invoice)
    → any p invoices ≡ false
    → count_if p invoices ≡ 0
none-count p [] h = refl
none-count p (i ∷ invoices) h = ground (arith, none-count p invoices, h)

bills_own :
    (student semester : ℕ) (i : Invoice)
    → student ≡ i.student
    → semester ≡ i.semester
    → bills student semester i ≡ true
bills_own student semester i to for = ground (arith, to, for)

-- what an invoice that was issued adds
record Issued (b : Books) (student semester : ℕ) (b' : Books) : Type 0 where
  invoice : Invoice
  first : any (bills student semester) b.invoices ≡ false
  added : b'.invoices ≡ invoice ∷ b.invoices
  billed : bills student semester invoice ≡ true

lift_issue-duplicate :
    {A : Type 0} (r : Result IssueError A) → ¬ (lift_issue r ≡ err duplicate_invoice)
lift_issue-duplicate (ok a) h = ground (arith, h)
lift_issue-duplicate (err e) h = ground (arith, h)

lift_issue_ok : {A : Type 0} (r : Result IssueError A) {a : A} → lift_issue r ≡ ok a → r ≡ ok a
lift_issue_ok (ok b) h = ap ok (ok_injective h)
lift_issue_ok (err e) h = absurd (ground (arith, h))

generate_invoice-Issued :
    (db : Catalogue) (b b' : Books) (student semester : ℕ) (due : Option ℕ) (i : Invoice)
    → generate_invoice db b student semester due ≡ ok (b', i)
    → Issued b student semester b'
unfolding generate_invoice issue_invoice
generate_invoice-Issued db b b' student semester due i h =
    let (fresh, h0) = raise_if_ok (any (bills student semester) b.invoices) _ _ h in
    let h1 = lift_issue_ok (issue_invoice db b student semester due) h0 in
    let (t, _, h2) = bind_ok (found (get_semester db.semesters semester)) _ h1 in
    let (s, _, h3) = bind_ok (found (find_student db.students student)) _ h2 in
    let (f, _, h4) =
      bind_ok
        (or_raise
          (applicable_fee_structure db.structures s.programme t.academic_year s.current_level
            (residency_of s.nationality))
          not_configured)
        _ h3 in
    let (d, _, h5) =
      bind_ok
        (or_raise (scholarship_discount db.scholarships student t.academic_year f.amount)
          broken_scholarship)
        _ h4 in
    let (y, _, h6) =
      bind_ok (or_raise (find_first (λ y. y.0 == t.academic_year) db.year_names) not_found) _ h5 in
    let fee = fee_for_active_allocation db.hostel_fee db.allocations student t.academic_year in
    let number = (generate_invoice_number b.sequences y.1).1 in
    let inv = invoice_of (next_key invoice_id b.invoices) student semester t f fee d number due in
    let (_, h7) = raise_if_ok (not (is_clean_invoice b.invoices inv)) _ _ h6 in
    let e = ok_injective h7 in
    let to = ap (λ (q : Books × Invoice). q.1.student) e in
    let for = ap (λ (q : Books × Invoice). q.1.semester) e in
    record {
      invoice = i;
      first = fresh;
      added =
          sym (ap (λ (q : Books × Invoice). q.0.invoices) e)
          ∙ ap (λ (q : Books × Invoice). q.1 ∷ b.invoices) e;
      billed = bills_own student semester i to for;
    }

-- a second invoice is refused only where there is a first
duplicate-billed :
    (db : Catalogue) (b : Books) (student semester : ℕ) (due : Option ℕ)
    → generate_invoice db b student semester due ≡ err duplicate_invoice
    → any (bills student semester) b.invoices ≡ true
unfolding generate_invoice
duplicate-billed db b student semester due h =
    elim (Bool-cases (any (bills student semester) b.invoices)) [
      | inl e ↦ e
      | inr e ↦ absurd (lift_issue-duplicate (issue_invoice db b student semester due) (rw e at h))
    ]

-- whether a student was left out for want of a fee structure
abbrev pub is_unconfigured : BillingError → Bool
is_unconfigured duplicate_invoice = false
is_unconfigured (not_issued not_configured) = true
is_unconfigured (not_issued not_found) = false
is_unconfigured (not_issued validation_error) = false
is_unconfigured (not_issued broken_scholarship) = false

abbrev pub left_out : ℕ → ℕ × BillingError → Bool
left_out student (s, e) = (s == student) && is_unconfigured e

-- a student of the roll has an invoice, or is reported as without a fee structure
abbrev pub Served : (semester : ℕ) → BatchRun → ℕ → Type 0
Served semester r student =
    (any (bills student semester) r.books.invoices || any (left_out student) r.skipped) ≡ true

-- what a run over a roll leaves
abbrev pub Complete : ℕ → List ℕ → BatchRun → Type 0
Complete semester roll r =
    (r.created + length r.skipped ≡ length roll) × All (Served semester r) roll

record Ran (semester : ℕ) (roll : List ℕ) (b : Books) (r : BatchRun) : Type 0 where
  one_each : OneBillEach b.invoices → OneBillEach r.books.invoices
  kept :
      (s : ℕ)
      → any (bills s semester) b.invoices ≡ true
      → any (bills s semester) r.books.invoices ≡ true
  size : length r.books.invoices ≡ length b.invoices + r.created
  outcome : (is_none r.failed ≡ false) ⊎ Complete semester roll r

Served-skipped :
    (semester : ℕ) (r : BatchRun) (s : ℕ) (e : BillingError) (roll : List ℕ)
    → All (Served semester r) roll
    → All (Served semester (add_skipped s e r)) roll
Served-skipped semester r s e [] h = tt
Served-skipped semester r s e (k ∷ roll) (h, hs) =
    (ground (arith, h), Served-skipped semester r s e roll hs)

one_each-added :
    (student semester : ℕ) (b b' : Books)
    → Issued b student semester b'
    → OneBillEach b.invoices
    → OneBillEach b'.invoices
one_each-added student semester b b' issued one s t =
    let zero_before = none-count (bills student semester) b.invoices issued.first in
    let i = issued.invoice in
    subst (λ (is : List Invoice). count_if (bills s t) is ≤ 1) (sym issued.added)
      (elim (Bool-cases (bills s t i)) [
        | inl e ↦
            let to : student ≡ s = ground (arith, e, issued.billed) in
            let for : semester ≡ t = ground (arith, e, issued.billed) in
            let before : count_if (bills s t) b.invoices ≡ 0 =
              subst (λ k. count_if (bills k t) b.invoices ≡ 0) to
                (subst (λ k. count_if (bills student k) b.invoices ≡ 0) for zero_before) in
            ground (arith, before)
        | inr e ↦ ground (arith, e, one s t)
      ])

kept-added :
    (student semester : ℕ) (b b' : Books)
    → Issued b student semester b'
    → (s : ℕ) → any (bills s semester) b.invoices ≡ true
    → any (bills s semester) b'.invoices ≡ true
kept-added student semester b b' issued s h =
    subst (λ (is : List Invoice). any (bills s semester) is ≡ true) (sym issued.added)
      (ground (arith, h))

now_billed :
    (student semester : ℕ) (b b' : Books)
    → Issued b student semester b'
    → any (bills student semester) b'.invoices ≡ true
now_billed student semester b b' issued =
    subst (λ (is : List Invoice). any (bills student semester) is ≡ true) (sym issued.added)
      (ground (arith, issued.billed))

stopped-Ran :
    (semester : ℕ) (roll : List ℕ) (b : Books) (e : IssueError) → Ran semester roll b (stopped b e)
stopped-Ran semester roll b e = record {
  one_each = λ one. one;
  kept = λ s h. h;
  size = omega arith;
  outcome = inl refl;
}

-- a student is billed, or left out, and then the rest of the roll
bill_one-Ran :
    (db : Catalogue) (semester student : ℕ) (roll : List ℕ) (b : Books)
    (outcome : Result BillingError (Books × Invoice)) (rest : Books → BatchRun)
    → generate_invoice db b student semester none ≡ outcome
    → ((c : Books) → Ran semester roll c (rest c))
    → Ran semester (student ∷ roll) b (bill_one student b outcome rest)
bill_one-Ran db semester student roll b (ok (b', i)) rest h ran =
    let issued = generate_invoice-Issued db b b' student semester none i h in
    let later = ran b' in
    let grown = ap length issued.added in
    record {
      one_each = λ one. later.one_each (one_each-added student semester b b' issued one);
      kept = λ s e. later.kept s (kept-added student semester b b' issued s e);
      size = omega (arith, later.size, grown);
      outcome = elim later.outcome [
        | inl f ↦ inl f
        | inr (count, served) ↦
            let billed = later.kept student (now_billed student semester b b' issued) in
            inr (omega (arith, count), (ground (arith, billed), served))
      ];
    }
bill_one-Ran db semester student roll b (err duplicate_invoice) rest h ran =
    let later = ran b in
    record {
      one_each = later.one_each;
      kept = later.kept;
      size = later.size;
      outcome = elim later.outcome [
        | inl f ↦ inl f
        | inr (count, served) ↦
            let billed = later.kept student (duplicate-billed db b student semester none h) in
            inr (
              omega (arith, count),
              (
                ground (arith, billed),
                Served-skipped semester (rest b) student duplicate_invoice roll served,
              ),
            )
      ];
    }
bill_one-Ran db semester student roll b (err (not_issued not_configured)) rest h ran =
    let later = ran b in
    record {
      one_each = later.one_each;
      kept = later.kept;
      size = later.size;
      outcome = elim later.outcome [
        | inl f ↦ inl f
        | inr (count, served) ↦ inr (
          omega (arith, count),
          (
            ground arith,
            Served-skipped semester (rest b) student (not_issued not_configured) roll served,
          ),
        )
      ];
    }
bill_one-Ran db semester student roll b (err (not_issued not_found)) rest h ran =
    stopped-Ran semester (student ∷ roll) b not_found
bill_one-Ran db semester student roll b (err (not_issued validation_error)) rest h ran =
    stopped-Ran semester (student ∷ roll) b validation_error
bill_one-Ran db semester student roll b (err (not_issued broken_scholarship)) rest h ran =
    stopped-Ran semester (student ∷ roll) b broken_scholarship

generate_invoices-Ran :
    (db : Catalogue) (semester : ℕ) (roll : List ℕ) (b : Books)
    → Ran semester roll b (generate_invoices db semester roll b)
unfolding generate_invoices
generate_invoices-Ran db semester [] b = record {
  one_each = λ one. one;
  kept = λ s e. e;
  size = omega arith;
  outcome = inr (omega arith, tt);
}
generate_invoices-Ran db semester (student ∷ roll) b =
    bill_one-Ran db semester student roll b (generate_invoice db b student semester none)
      (generate_invoices db semester roll) refl (generate_invoices-Ran db semester roll)

-- A batch run over the students registered in a semester, from books in which no student has two invoices
-- for a semester, leaves such books, with one more invoice for each that it counts as created; and it was
-- ended by an error, or every student of the roll has an invoice for the semester or is reported as without
-- a fee structure, and the counts of created and skipped make up the roll.
pub generate_invoices_for_semester-complete :
    (db : Catalogue) (registrations : List CourseRegistration) (semester : ℕ) (b : Books)
    → OneBillEach b.invoices
    → OneBillEach (generate_invoices_for_semester db registrations semester b).books.invoices
      × (length (generate_invoices_for_semester db registrations semester b).books.invoices
          ≡ length b.invoices
            + (generate_invoices_for_semester db registrations semester b).created)
      × ((is_none (generate_invoices_for_semester db registrations semester b).failed ≡ false)
          ⊎ Complete semester
              (roll_of registrations semester)
              (generate_invoices_for_semester db registrations semester b))
unfolding generate_invoices_for_semester
generate_invoices_for_semester-complete db registrations semester b one =
    let ran = generate_invoices-Ran db semester (roll_of registrations semester) b in
    (ran.one_each one, ran.size, ran.outcome)
