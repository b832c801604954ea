-- ===== src/Admissions/Applications/Decisions.antt =====
-- What becomes of an application, from its submission to the student record.
use uni_acmis.Prelude.{
  ℕ, String, Option, none, some, is_none, Bool, true, false, not, List, [], ◌∷◌, ◌++◌,
  if◌then◌else◌, is_blank, concat_text, Result, ok, err, ◌>>=◌, ◌>>◌, raise_if,
}
use uni_acmis.Registry.{Student, Reference, is_empty}
use uni_acmis.Registry.Creation.{NewStudent, create_student, text_or}
use uni_acmis.Admissions.Applications.{
  ApplicationStatus, draft, submitted, under_review, offered, accepted, rejected, withdrawn,
  enrolled, Application, AdmissionError, invalid_application_transition, missing_fields, Admissions,
  transition, save_application, lift_registry,
}

-- one of `REQUIRED_TO_SUBMIT`, where it is empty
abbrev pub if_empty : (field value : String) → List String
if_empty field value = if is_empty value then field ∷ [] else []

unfoldable pub missing_to_submit : Application → List String
missing_to_submit a =
    if_empty "first_name" a.first_name
    ++ if_empty "last_name" a.last_name
    ++ if_empty "gender" a.gender
    ++ if_empty "phone" a.phone

abbrev pub raise_missing : List String → Result AdmissionError (Unit {0})
raise_missing [] = ok tt
raise_missing (f ∷ fs) = err (missing_fields (f ∷ fs))

unfoldable pub submit_application :
    Reference
    → (now : ℕ) → Admissions
    → Application
    → Result AdmissionError (Admissions × Application)
submit_application reference now s a = do
  transition a submitted
  raise_missing (missing_to_submit a)
  raise_if (not a.fee_paid) invalid_application_transition
  save_application reference s (record a { status = submitted; submitted_at = some now })

unfoldable pub withdraw_application :
    Reference
    → Admissions
    → Application
    → (reason : String) → Result AdmissionError (Admissions × Application)
withdraw_application reference s a reason = do
  raise_if (is_blank reason) invalid_application_transition
  transition a withdrawn
  save_application reference s (record a { status = withdrawn })

-- whether a status is one of the two decisions
abbrev pub is_decision : ApplicationStatus → Bool
is_decision draft = false
is_decision submitted = false
is_decision under_review = false
is_decision offered = true
is_decision accepted = false
is_decision rejected = true
is_decision withdrawn = false
is_decision enrolled = false

unfoldable pub decide_application :
    Reference
    → (now : ℕ) → Admissions
    → Application
    → (decision : ApplicationStatus) → (decided_by : Option ℕ) → (reason : String)
    → Result AdmissionError (Admissions × Application)
decide_application reference now s a decision decided_by reason = do
  raise_if (not (is_decision decision)) invalid_application_transition
  raise_if (is_blank reason) invalid_application_transition
  transition a decision
  save_application reference s (record a {
    status = decision;
    reviewed_by = decided_by;
    reviewed_at = some now;
    decision_reason = reason;
  })

unfoldable pub accept_offer :
    Reference → Admissions → Application → Result AdmissionError (Admissions × Application)
accept_offer reference s a = do
  transition a accepted
  save_application reference s (record a { status = accepted })

unfoldable pub decline_offer :
    Reference
    → Admissions
    → Application
    → (reason : String) → Result AdmissionError (Admissions × Application)
decline_offer reference s a reason = do
  transition a rejected
  save_application reference s
      (record a { status = rejected; decision_reason = text_or reason "Declined by applicant" })

-- the arguments of `create_student` that a conversion gives
abbrev pub student_form : Application → NewStudent
student_form a = record {
  programme_id = a.programme;
  entry_academic_year_id = a.intended_academic_year;
  first_name = a.first_name;
  last_name = a.last_name;
  gender = a.gender;
  student_id = "";
  user = a.user;
  curriculum_version = none;
  middle_name = a.middle_name;
  nationality = some a.nationality;
  state_of_origin = a.state_of_origin;
  has_disability = a.has_disability;
  disability_details = a.disability_details;
  phone = a.phone;
  email = a.email;
  admitted_on = none;
}

unfoldable pub convert_to_student :
    Reference
    → (today : ℕ) → Admissions
    → Application
    → (actor : Option ℕ) → Result AdmissionError (Admissions × Student)
convert_to_student reference today s a actor = do
  transition a enrolled
  raise_if (not (is_none a.student)) invalid_application_transition
  created ← lift_registry (
      create_student reference today s.registry (student_form a) actor
        (concat_text ("Converted from application " ∷ a.reference_number ∷ [])))
  saved ←
      save_application reference (record s { registry = created.0 })
        (record a { status = enrolled; student = some created.1.id })
  ok (saved.0, created.1)
