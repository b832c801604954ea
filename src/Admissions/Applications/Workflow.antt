-- ===== src/Admissions/Applications/Workflow.antt =====
-- Every run of the workflow keeps what is on record, and ends.
use mathlib.Core.Path.{subst}
use uni_acmis.Prelude.{
  Run, Run-keeps, next, done, ℕ, ◌+◌, ◌≤◌, ◌<◌, ◌≡◌, ◌⊎◌, refl, sym, ◌∙◌, String, Option, none,
  some, some_injective, true, false, List, [], arith, ◌==◌, ==_iff, if◌then◌else◌, Bool-cases, inl,
  inr, get, get-update_row, get-update_row_away, get-le-highest, update_row, All, All-update_row,
  get-All, ok, ℤ,
}
use uni_acmis.Finance.Ledger.{PaymentStatus}
use uni_acmis.Registry.{Student, Registry, Reference}
use uni_acmis.Admissions.Applications.{
  Application, ApplicationStatus, draft, submitted, under_review, offered, accepted, rejected,
  withdrawn, enrolled, ApplicationFeePayment, payment_id, Admissions, application_id, allowed, Form,
  create_application,
}
use uni_acmis.Admissions.Applications.Decisions.{
  submit_application, withdraw_application, decide_application, accept_offer, decline_offer,
  convert_to_student,
}
use uni_acmis.Admissions.Applications.Review.{ApplicationReview, record_review}
use uni_acmis.Admissions.Applications.Fees.{
  PaymentIntent, initiate_fee_payment, confirm_fee_payment,
}
use uni_acmis.Admissions.Applications.Evidence.{IsEvident}
use uni_acmis.Admissions.Applications.Effects.{
  Effect, unchanged, added, saved, create-Effect, submit-Effect, withdraw-Effect, decide-Effect,
  accept-Effect, decline-Effect, convert-Effect, review-Effect, initiate-Effect, fee-Effect,
}

-- one operation on stored applications; the registry may be changed between two of them by others
pub data Step (reference : Reference) : Admissions → Admissions → Type 0 where
  creates :
      {s s' : Admissions} (form : Form) (a : Application)
      → create_application reference s form ≡ ok (s', a)
      → Step reference s s'
  submits :
      {s s' : Admissions} (now : ℕ) (old a : Application)
      → get application_id old.id s.applications ≡ some old
      → submit_application reference now s old ≡ ok (s', a)
      → Step reference s s'
  withdraws :
      {s s' : Admissions} (old a : Application) (reason : String)
      → get application_id old.id s.applications ≡ some old
      → withdraw_application reference s old reason ≡ ok (s', a)
      → Step reference s s'
  reviews :
      {s s' : Admissions} (rows rows' : List ApplicationReview) (old : Application) (reviewer : ℕ)
      (score : ℤ) (comments : String) (review : ApplicationReview)
      → get application_id old.id s.applications ≡ some old
      → record_review reference s rows old reviewer score comments ≡ ok (s', (rows', review))
      → Step reference s s'
  decides :
      {s s' : Admissions} (now : ℕ) (old a : Application) (decision : ApplicationStatus)
      (decided_by : Option ℕ) (reason : String)
      → get application_id old.id s.applications ≡ some old
      → decide_application reference now s old decision decided_by reason ≡ ok (s', a)
      → Step reference s s'
  accepts :
      {s s' : Admissions} (old a : Application)
      → get application_id old.id s.applications ≡ some old
      → accept_offer reference s old ≡ ok (s', a)
      → Step reference s s'
  declines :
      {s s' : Admissions} (old a : Application) (reason : String)
      → get application_id old.id s.applications ≡ some old
      → decline_offer reference s old reason ≡ ok (s', a)
      → Step reference s s'
  converts :
      {s s' : Admissions} (today : ℕ) (old : Application) (actor : Option ℕ) (student : Student)
      → get application_id old.id s.applications ≡ some old
      → convert_to_student reference today s old actor ≡ ok (s', student)
      → Step reference s s'
  initiates :
      {s s' : Admissions} (initiate : ℤ → String → String → String → Option PaymentIntent)
      (a : Application) (amount : ℤ) (currency : String) (p : ApplicationFeePayment)
      → get application_id a.id s.applications ≡ some a
      → initiate_fee_payment initiate s a amount currency ≡ some (s', p)
      → Step reference s s'
  pays :
      {s s' : Admissions} (status : String → PaymentStatus) (now : ℕ) (p : ApplicationFeePayment)
      → get payment_id p.id s.fee_payments ≡ some p
      → confirm_fee_payment status now s p ≡ some s'
      → Step reference s s'
  registry_changes : {s : Admissions} (r : Registry) → Step reference s (record s { registry = r })

abbrev pub Steps : (reference : Reference) → Admissions → Admissions → Type 0
Steps reference = Run (Step reference)

Step-Effect :
    (reference : Reference) {s s' : Admissions}
    → Step reference s s'
    → Effect s.applications s'.applications
Step-Effect reference (creates {s} {s'} form a h) = create-Effect reference s s' form a h
Step-Effect reference (submits {s} {s'} now old a g h) = submit-Effect reference s s' now old a g h
Step-Effect reference (withdraws {s} {s'} old a reason g h) =
    withdraw-Effect reference s s' old a reason g h
Step-Effect reference (reviews {s} {s'} rows rows' old reviewer score comments review g h) =
    review-Effect reference s s' rows rows' old reviewer score comments review g h
Step-Effect reference (decides {s} {s'} now old a decision by reason g h) =
    decide-Effect reference s s' now old a decision by reason g h
Step-Effect reference (accepts {s} {s'} old a g h) = accept-Effect reference s s' old a g h
Step-Effect reference (declines {s} {s'} old a reason g h) =
    decline-Effect reference s s' old a reason g h
Step-Effect reference (converts {s} {s'} today old actor student g h) =
    convert-Effect reference s s' today old actor student g h
Step-Effect reference (initiates {s} {s'} initiate a amount currency p g h) =
    initiate-Effect initiate s s' a amount currency p h
Step-Effect reference (pays {s} {s'} status now p g h) = fee-Effect status now s s' p h
Step-Effect reference (registry_changes r) = unchanged refl

Effect-keeps :
    {rows rows' : List Application} → Effect rows rows' → All IsEvident rows → All IsEvident rows'
Effect-keeps (unchanged e) all = subst (All IsEvident) (sym e) all
Effect-keeps (added a id evident e) all = subst (All IsEvident) (sym e) (evident, all)
Effect-keeps {rows} (saved old a stored id law e) all = subst (All IsEvident) (sym e) (
    All-update_row application_id IsEvident a rows
      (law.evident (get-All application_id IsEvident old.id old rows stored all)) all)

Steps-keeps :
    (reference : Reference) {s s' : Admissions}
    → Steps reference s s'
    → All IsEvident s.applications
    → All IsEvident s'.applications
Steps-keeps reference steps k =
    Run-keeps (Step reference) (λ s. All IsEvident s.applications)
      (λ a b s k. Effect-keeps (Step-Effect reference s) k) steps k

-- After any run of the workflow from no applications, every application whose status is submitted,
-- under review, offered, accepted, rejected or enrolled has paid its fee and has the time of its
-- submission; one that is offered, accepted or enrolled has the time of a decision and a reason for
-- it; and an application has a student exactly when it is enrolled.
pub applications-IsEvident :
    (reference : Reference) (registry : Registry) (s : Admissions)
    → Steps reference (record { fee_payments = []; applications = []; registry = registry }) s
    → All IsEvident s.applications
applications-IsEvident reference registry s steps = Steps-keeps reference steps tt

-- how far a status is
abbrev pub rank : ApplicationStatus → ℕ
rank draft = 0
rank submitted = 1
rank under_review = 2
rank offered = 3
rank accepted = 4
rank rejected = 5
rank withdrawn = 5
rank enrolled = 5

allowed-rank : (from to : ApplicationStatus) → allowed from to ≡ true → rank from < rank to
unfolding allowed
allowed-rank from to h = ground (arith, h)

-- the change of one application in a step
abbrev Moves : Application → Application → Type 0
Moves x y = (y.status ≡ x.status) ⊎ (allowed x.status y.status ≡ true)

-- a stored application stays stored, and moves as the transitions allow
Effect-move :
    {rows rows' : List Application} (k : ℕ) (x : Application)
    → Effect rows rows'
    → get application_id k rows ≡ some x
    → (y : Application) × (get application_id k rows' ≡ some y) × Moves x y
Effect-move k x (unchanged e) g = (x, rw e g, inl refl)
Effect-move {rows} k x (added a id evident e) g =
    let low = get-le-highest application_id k x rows g in
    let off : (a.id == k) ≡ false = ground (arith, id, low) in (x, rw (e, off) g, inl refl)
Effect-move {rows} k x (saved old a stored id law e) g = elim (Bool-cases (a.id == k)) [
  | inl here ↦
      let ek = (==_iff a.id k).0 here in
      let stored' = subst (λ j. get application_id j rows ≡ some old) (sym id) stored in
      let there =
        subst (λ j. get application_id j (update_row application_id a rows) ≡ some a) ek
          (get-update_row application_id a old rows stored') in
      let same : old ≡ x =
        some_injective (sym stored' ∙ subst (λ j. get application_id j rows ≡ some x) (sym ek) g) in
      (
        a,
        subst (λ t. get application_id k t ≡ some a) (sym e) there,
        subst (λ o. Moves o a) same law.moved,
      )
  | inr away ↦ (
    x,
    subst (λ t. get application_id k t ≡ some x) (sym e)
        (get-update_row_away application_id a k rows away ∙ g),
    inl refl,
  )
]

-- the statuses as numbers
abbrev pub status_code : ApplicationStatus → ℕ
status_code draft = 0
status_code submitted = 1
status_code under_review = 2
status_code offered = 3
status_code accepted = 4
status_code rejected = 5
status_code withdrawn = 6
status_code enrolled = 7

-- whether the status of an application differs between two tables
abbrev pub differs : Option Application → Option Application → ℕ
differs none o = 0
differs (some x) none = 0
differs (some x) (some y) = if status_code x.status == status_code y.status then 0 else 1

-- in how many steps of a run the status of an application changes
unfoldable pub status_changes :
    (k : ℕ) {reference : Reference} {s s' : Admissions} → Steps reference s s' → ℕ
status_changes k done = 0
status_changes k (next {a} {b} {c} step rest) =
    differs (get application_id k a.applications) (get application_id k b.applications)
    + status_changes k rest

move-rank :
    (x y : Application) → Moves x y → differs (some x) (some y) + rank x.status ≤ rank y.status
move-rank x y (inl same) = rw same (ground arith)
move-rank x y (inr move) = ground (arith, allowed-rank x.status y.status move)

run-rank :
    (reference : Reference) {s s' : Admissions} (steps : Steps reference s s') (k : ℕ)
    (x : Application)
    → get application_id k s.applications ≡ some x
    → (y : Application) × (get application_id k s'.applications ≡ some y)
      × (status_changes k steps + rank x.status ≤ rank y.status)
unfolding status_changes
run-rank reference done k x g = (x, g, omega arith)
run-rank reference (next {a} {b} {c} step rest) k x g =
    let (y, gy, move) = Effect-move k x (Step-Effect reference step) g in
    let (z, gz, later) = run-rank reference rest k y gy in
    let one = move-rank x y move in (z, gz, rw (g, gy) (omega (arith, one, later)))

rank-le : (s : ApplicationStatus) → rank s ≤ 5
rank-le s = ground arith

-- In every run of the workflow, however long, an application that is stored at its start stays stored, and
-- its status changes in at most as many steps as lie between its first and its last status; a draft's
-- status changes at most five times.
pub workflow_ends :
    (reference : Reference) (s s' : Admissions) (steps : Steps reference s s') (k : ℕ)
    (x : Application)
    → get application_id k s.applications ≡ some x
    → (y : Application) × (get application_id k s'.applications ≡ some y)
      × (status_changes k steps + rank x.status ≤ rank y.status)
      × (status_changes k steps ≤ 5)
workflow_ends reference s s' steps k x g =
    let (y, gy, h) = run-rank reference steps k x g in
    (y, gy, h, omega (arith, h, rank-le y.status))
