-- ===== src/Admissions/Applications/Effects.antt =====
-- What the operations may do to the table of applications.
use mathlib.Core.Path.{subst}
use uni_acmis.Prelude.{
  ℕ, ◌≡◌, ◌⊎◌, refl, sym, ◌∙◌, ap, some_injective, String, Option, some, is_none, true, not, List,
  ◌∷◌, arith, inl, inr, get, get_key, Option-cases, next_key, update_row, is_blank, ok, ◌>>◌,
  raise_if_ok, bind_ok, ok_injective, ℤ,
}
use uni_acmis.Registry.{Student, Reference}
use uni_acmis.Registry.Creation.{academic_year_name, text_or}
use uni_acmis.Admissions.Applications.{
  Application, ApplicationStatus, submitted, accepted, rejected, withdrawn, enrolled, Admissions,
  ApplicationFeePayment, FeePaymentStatus, payment_id, application_id, allowed, transition,
  is_clean_application, save_application, lift_registry, generate_reference_number, Form,
  application_of, create_application,
}
use uni_acmis.Admissions.Applications.Decisions.{
  missing_to_submit, raise_missing, submit_application, withdraw_application, is_decision,
  decide_application, accept_offer, decline_offer, convert_to_student,
}
use uni_acmis.Admissions.Applications.Review.{
  ApplicationReview, save_review, average_score, reviewed_status, record_review,
}
use uni_acmis.Admissions.Applications.Fees.{
  PaymentIntent, mark_paid, save_fee_payment, apply_fee_state, initiate_fee_payment,
  confirm_fee_payment,
}
use uni_acmis.Finance.Ledger.{PaymentStatus}
use uni_acmis.Admissions.Applications.Evidence.{
  has_evidence, IsEvident, submit_needs, withdraw_needs, decision_needs, accept_needs, enroll_needs,
  decided_evident,
}

-- how a saved row may differ from the stored one
pub record Lawful (old a : Application) : Type 0 where
  pub moved : (a.status ≡ old.status) ⊎ (allowed old.status a.status ≡ true)
  pub evident : IsEvident old → IsEvident a

-- what an operation does: nothing, a new draft, or a lawful save of a stored row
pub data Effect (rows rows' : List Application) : Type 0 where
  unchanged : rows' ≡ rows → Effect rows rows'
  added :
      (a : Application)
      → a.id ≡ next_key application_id rows
      → IsEvident a
      → rows' ≡ a ∷ rows
      → Effect rows rows'
  saved :
      (old a : Application)
      → get application_id old.id rows ≡ some old
      → a.id ≡ old.id
      → Lawful old a
      → rows' ≡ update_row application_id a rows
      → Effect rows rows'

abbrev Stored : Admissions → Application → Type 0
Stored s old = get application_id old.id s.applications ≡ some old

-- a save by an operation
save-Effect :
    (reference : Reference) (s s' : Admissions) (old a b : Application)
    → Stored s old
    → a.id ≡ old.id
    → Lawful old a
    → save_application reference s a ≡ ok (s', b)
    → Effect s.applications s'.applications
unfolding save_application
save-Effect reference s s' old a b stored id law h =
    let (_, h1) = raise_if_ok (not (is_clean_application reference s.applications a)) _ _ h in
    saved old a stored id law
      (sym (ap (λ (q : Admissions × Application). q.0.applications) (ok_injective h1)))

-- a save after a transition
moved-Effect :
    (reference : Reference) (s s' : Admissions) (old a b : Application) (to : ApplicationStatus)
    → Stored s old
    → a.id ≡ old.id
    → a.status ≡ to
    → (allowed old.status to ≡ true → IsEvident old → IsEvident a)
    → (transition old to >> save_application reference s a) ≡ ok (s', b)
    → Effect s.applications s'.applications
unfolding transition
moved-Effect reference s s' old a b to stored id now evident h =
    let (may, h1) = raise_if_ok (not (allowed old.status to)) _ _ h in
    let move : allowed old.status to ≡ true = ground (arith, may) in
    save-Effect reference s s' old a b stored id
      (record { moved = inr (ground (arith, now, move)); evident = evident move }) h1

-- a review changes neither what is on record nor the need of it
review_evident :
    (st : ApplicationStatus) (a b : Application)
    → b.fee_paid ≡ a.fee_paid
    → b.submitted_at ≡ a.submitted_at
    → b.reviewed_at ≡ a.reviewed_at
    → b.decision_reason ≡ a.decision_reason
    → b.student ≡ a.student
    → has_evidence st a ≡ true
    → has_evidence (reviewed_status st) b ≡ true
review_evident st a b p q r d t e = ground (arith, p, q, r, d, t, e)

reviewed_moves :
    (st : ApplicationStatus) → (reviewed_status st ≡ st) ⊎ (allowed st (reviewed_status st) ≡ true)
unfolding allowed
reviewed_moves st = ground arith

-- a payment of the fee takes nothing off the record
paid_evident :
    (st : ApplicationStatus) (a : Application)
    → has_evidence st a ≡ true
    → has_evidence st (record a { fee_paid = true }) ≡ true
paid_evident st a e = ground (arith, e)

pub mark_paid-Effect :
    (k : ℕ) (applications : List Application) → Effect applications (mark_paid k applications)
unfolding mark_paid
mark_paid-Effect k applications = elim (Option-cases (get application_id k applications)) [
  | inl e ↦ unchanged (ground (arith, e))
  | inr (a, e) ↦
      let key : a.id ≡ k = get_key application_id k a applications e in
      saved a (record a { fee_paid = true })
        (subst (λ j. get application_id j applications ≡ some a) (sym key) e) refl
        (record { moved = inl refl; evident = λ h. paid_evident a.status a h }) (ground (arith, e))
]

-- a saved payment leaves the applications
save_fee_payment-applications :
    (s s' : Admissions) (p : ApplicationFeePayment)
    → save_fee_payment s p ≡ some s'
    → s'.applications ≡ s.applications
unfolding save_fee_payment
save_fee_payment-applications s s' p h = elim (Option-cases (get payment_id p.id s.fee_payments)) [
  | inl e ↦ absurd (ground (arith, rw (e, save_fee_payment) at h))
  | inr (stored, e) ↦
      sym (ap (λ t. t.applications) (some_injective (rw (e, save_fee_payment) at h)))
]

pub initiate-Effect :
    (initiate : ℤ → String → String → String → Option PaymentIntent) (s s' : Admissions)
    (a : Application) (amount : ℤ) (currency : String) (p : ApplicationFeePayment)
    → initiate_fee_payment initiate s a amount currency ≡ some (s', p)
    → Effect s.applications s'.applications
unfolding initiate_fee_payment
initiate-Effect initiate s s' a amount currency p h = unchanged (ground (arith, h))

pub fee-Effect :
    (status : String → PaymentStatus) (now : ℕ) (s s' : Admissions) (p : ApplicationFeePayment)
    → confirm_fee_payment status now s p ≡ some s'
    → Effect s.applications s'.applications
unfolding confirm_fee_payment apply_fee_state
fee-Effect status now s s' p h = by_state (status p.reference) h
  where
    by_state :
        (st : PaymentStatus)
        → apply_fee_state st now s p ≡ some s'
        → Effect s.applications s'.applications
    by_state PaymentStatus.confirmed h =
        let q : ApplicationFeePayment = record p {
          status = FeePaymentStatus.confirmed;
          confirmed_at = some now;
        } in
        elim (Option-cases (save_fee_payment s q)) [
          | inl e ↦ absurd (ground (arith, rw (e, apply_fee_state) at h))
          | inr (t, e) ↦
              let same = save_fee_payment-applications s t q e in
              let paid = ap (λ u. u.applications) (some_injective (rw (e, apply_fee_state) at h)) in
              subst (Effect s.applications) (ap (mark_paid p.application) (sym same) ∙ paid)
                (mark_paid-Effect p.application s.applications)
        ]
    by_state PaymentStatus.failed h = unchanged (save_fee_payment-applications s s' _ h)
    by_state PaymentStatus.pending h = unchanged (ground (arith, h))
    by_state PaymentStatus.cancelled h = unchanged (ground (arith, h))

module _ (reference : Reference) (s s' : Admissions) where
  pub review-Effect :
      (reviews reviews' : List ApplicationReview) (old : Application) (reviewer : ℕ) (score : ℤ)
      (comments : String) (review : ApplicationReview)
      → Stored s old
      → record_review reference s reviews old reviewer score comments ≡ ok (s', (reviews', review))
      → Effect s.applications s'.applications
  unfolding record_review
  review-Effect reviews reviews' old reviewer score comments review stored h =
      let b : Application = record old {
        score = average_score (save_review reviews old.id reviewer score comments).0 old.id;
        status = reviewed_status old.status;
      } in
      let (done, save, h1) = bind_ok (save_application reference s b) _ h in
      let effect =
        save-Effect reference s done.0 old b done.1 stored refl
          (record {
            moved = reviewed_moves old.status;
            evident = λ e. review_evident old.status old b refl refl refl refl refl e;
          })
          save in
      subst (Effect s.applications)
        (ap (λ (q : Admissions × (List ApplicationReview × ApplicationReview)). q.0.applications)
          (ok_injective h1))
        effect

  pub create-Effect :
      (form : Form) (a : Application)
      → create_application reference s form ≡ ok (s', a)
      → Effect s.applications s'.applications
  unfolding create_application
  create-Effect form a h =
      let (name, _, h1) =
        bind_ok
          (lift_registry (academic_year_name reference.year_names form.intended_academic_year_id)) _
          h in
      let numbered = generate_reference_number s.registry name in
      let b = application_of (next_key application_id s.applications) numbered.1 form in
      let (_, h2) = raise_if_ok (not (is_clean_application reference s.applications b)) _ _ h1 in
      added b refl refl
        (sym (ap (λ (q : Admissions × Application). q.0.applications) (ok_injective h2)))

  pub submit-Effect :
      (now : ℕ) (old a : Application)
      → Stored s old
      → submit_application reference now s old ≡ ok (s', a)
      → Effect s.applications s'.applications
  unfolding submit_application transition
  submit-Effect now old a stored h =
      let (may, h1) = raise_if_ok (not (allowed old.status submitted)) _ _ h in
      let (_, _, h2) = bind_ok (raise_missing (missing_to_submit old)) _ h1 in
      let (paid, h3) = raise_if_ok (not old.fee_paid) _ _ h2 in
      let b : Application = record old { status = submitted; submitted_at = some now } in
      save-Effect reference s s' old b a stored refl
        (record {
          moved = inr (ground (arith, may));
          evident = λ e. ground (arith, paid, submit_needs old.status old (ground (arith, may)) e);
        })
        h3

  pub withdraw-Effect :
      (old a : Application) (reason : String)
      → Stored s old
      → withdraw_application reference s old reason ≡ ok (s', a)
      → Effect s.applications s'.applications
  unfolding withdraw_application
  withdraw-Effect old a reason stored h =
      let (_, h1) = raise_if_ok (is_blank reason) _ _ h in
      moved-Effect reference s s' old (record old { status = withdrawn }) a withdrawn stored refl
        refl (λ m e. withdraw_needs old.status old m e) h1

  pub decide-Effect :
      (now : ℕ) (old a : Application) (decision : ApplicationStatus) (decided_by : Option ℕ)
      (reason : String)
      → Stored s old
      → decide_application reference now s old decision decided_by reason ≡ ok (s', a)
      → Effect s.applications s'.applications
  unfolding decide_application
  decide-Effect now old a decision decided_by reason stored h =
      let (proper, h1) = raise_if_ok (not (is_decision decision)) _ _ h in
      let (given, h2) = raise_if_ok (is_blank reason) _ _ h1 in
      let d : is_decision decision ≡ true = ground (arith, proper) in
      let b : Application = record old {
        status = decision;
        reviewed_by = decided_by;
        reviewed_at = some now;
        decision_reason = reason;
      } in
      moved-Effect reference s s' old b a decision stored refl refl
        (λ m e.
          decided_evident decision b d (decision_needs old.status decision old d m e) refl given)
        h2

  pub accept-Effect :
      (old a : Application)
      → Stored s old
      → accept_offer reference s old ≡ ok (s', a)
      → Effect s.applications s'.applications
  unfolding accept_offer
  accept-Effect old a stored h =
      moved-Effect reference s s' old (record old { status = accepted }) a accepted stored refl refl
        (λ m e. accept_needs old.status old m e) h

  pub decline-Effect :
      (old a : Application) (reason : String)
      → Stored s old
      → decline_offer reference s old reason ≡ ok (s', a)
      → Effect s.applications s'.applications
  unfolding decline_offer
  decline-Effect old a reason stored h =
      let b : Application = record old {
        status = rejected;
        decision_reason = text_or reason "Declined by applicant";
      } in
      moved-Effect reference s s' old b a rejected stored refl refl
        (λ m e. decision_needs old.status rejected old refl m e) h

  pub convert-Effect :
      (today : ℕ) (old : Application) (actor : Option ℕ) (student : Student)
      → Stored s old
      → convert_to_student reference today s old actor ≡ ok (s', student)
      → Effect s.applications s'.applications
  unfolding convert_to_student transition
  convert-Effect today old actor student stored h =
      let (may, h1) = raise_if_ok (not (allowed old.status enrolled)) _ _ h in
      let (_, h2) = raise_if_ok (not (is_none old.student)) _ _ h1 in
      let (created, _, h3) = bind_ok (lift_registry _) _ h2 in
      let b : Application = record old { status = enrolled; student = some created.1.id } in
      let s1 : Admissions = record s { registry = created.0 } in
      let (done, save, h4) = bind_ok (save_application reference s1 b) _ h3 in
      let m : allowed old.status enrolled ≡ true = ground (arith, may) in
      let effect =
        save-Effect reference s1 done.0 old b done.1 stored refl
          (record { moved = inr m; evident = λ e. ground (arith, enroll_needs old.status old m e) })
          save in
      subst (Effect s.applications)
        (ap (λ (q : Admissions × Student). q.0.applications) (ok_injective h4)) effect
