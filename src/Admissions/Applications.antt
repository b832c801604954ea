-- ===== src/Admissions/Applications.antt =====
-- Applications from the form to the student record: backend/apps/admissions/services.py, with
-- backend/apps/admissions/models.py and id_generation.py. Notifications of applicants are outside of the
-- model: a failure of one is caught and changes nothing.
pub mod Evidence
pub mod Effects
pub mod Workflow
pub mod Acceptance
pub mod Review
pub mod Fees
pub mod Decisions
use text.Mathlib.Text.{◌==◌ as str_eq}
use uni_acmis.Prelude.{
  pos_part, neg_part, ℕ, ◌+◌, String, Option, none, some, or_else, is_none, Bool, true, false, ◌&&◌,
  ◌||◌, not, List, [], ◌∷◌, ◌++◌, any, next_key, update_row, get, ltb, ◌==◌, if◌then◌else◌,
  is_blank, text_length, strip, concat_text, padded, Result, ok, err, ◌>>=◌, ◌>>◌, raise_if, ℤ,
}
use uni_acmis.Core.Sequences.{allocate}
use uni_acmis.Registry.{
  Student, Registry, Reference, RegistryError, fits_column, is_choice, genders, south_sudan_states,
  is_empty, same_user,
}
use uni_acmis.Registry.Creation.{
  NewStudent, create_student, academic_year_name, leading_year, text_or,
}

pub data ApplicationStatus : Type 0 where
  draft submitted under_review offered accepted rejected withdrawn enrolled : ApplicationStatus

pub data ApplicationSource : Type 0 where
  self_service staff_entry : ApplicationSource

pub record Application : Type 0 where
  pub id : ℕ
  pub reference_number : String
  pub user : Option ℕ
  pub programme : ℕ
  pub intended_academic_year : ℕ
  pub first_name : String
  pub middle_name : String
  pub last_name : String
  pub gender : String
  pub nationality : String
  pub phone : String
  pub email : String
  pub state_of_origin : String
  pub has_disability : Bool
  pub disability_details : String
  pub previous_grade : String
  pub status : ApplicationStatus
  pub source : ApplicationSource
  pub entered_by : Option ℕ
  pub submitted_at : Option ℕ
  pub score : Option ℤ
  pub reviewed_by : Option ℕ
  pub reviewed_at : Option ℕ
  pub decision_reason : String
  pub fee_paid : Bool
  pub student : Option ℕ

pub data AdmissionError : Type 0 where
  invalid_application_transition validation_error : AdmissionError
  missing_fields : List String → AdmissionError
  registry_refused : RegistryError → AdmissionError

pub data FeePaymentStatus : Type 0 where
  pending confirmed failed : FeePaymentStatus

pub record ApplicationFeePayment : Type 0 where
  pub id : ℕ
  pub application : ℕ
  pub provider : String
  pub reference : String
  pub amount : ℤ
  pub currency : String
  pub status : FeePaymentStatus
  pub confirmed_at : Option ℕ

abbrev pub payment_id : ApplicationFeePayment → ℕ
payment_id p = p.id

-- the tables that the workflow writes
pub record Admissions : Type 0 where
  pub fee_payments : List ApplicationFeePayment
  pub applications : List Application
  pub registry : Registry

abbrev pub application_id : Application → ℕ
application_id a = a.id

-- `to_status in ALLOWED_TRANSITIONS[status]`
unfoldable pub allowed : ApplicationStatus → ApplicationStatus → Bool
allowed draft submitted = true
allowed draft withdrawn = true
allowed draft _ = false
allowed submitted under_review = true
allowed submitted offered = true
allowed submitted rejected = true
allowed submitted withdrawn = true
allowed submitted _ = false
allowed under_review offered = true
allowed under_review rejected = true
allowed under_review withdrawn = true
allowed under_review _ = false
allowed offered accepted = true
allowed offered rejected = true
allowed offered withdrawn = true
allowed offered _ = false
allowed accepted enrolled = true
allowed accepted _ = false
allowed rejected _ = false
allowed withdrawn _ = false
allowed enrolled _ = false

-- `_transition`
unfoldable pub transition : Application → ApplicationStatus → Result AdmissionError (Unit {0})
transition a to_status = raise_if (not (allowed a.status to_status)) invalid_application_transition

-- the column of the score has six digits, two of them decimals
abbrev pub fits_score : Option ℤ → Bool
fits_score none = true
fits_score (some z) = ltb (pos_part z + neg_part z) 1000000

-- `Application.full_clean`
unfoldable pub is_clean_application : Reference → List Application → Application → Bool
is_clean_application reference applications a =
    fits_column a.first_name 100
    && fits_column a.last_name 100
    && fits_column a.nationality 100
    && not (ltb 100 (text_length a.middle_name))
    && not (ltb 32 (text_length a.phone))
    && not (ltb 10 (text_length a.previous_grade))
    && is_choice a.gender genders
    && (is_empty a.state_of_origin || is_choice a.state_of_origin south_sudan_states)
    && (is_empty a.email || reference.is_email a.email)
    && fits_column a.reference_number 30
    && fits_score a.score
    && not
        (any (λ b. str_eq b.reference_number a.reference_number && not (b.id == a.id)) applications)
    && not (any (λ b. same_user b.student a.student && not (b.id == a.id)) applications)
    && not (a.has_disability && is_blank a.disability_details)

-- `full_clean` and the save of a stored application
unfoldable pub save_application :
    Reference → Admissions → Application → Result AdmissionError (Admissions × Application)
save_application reference s a = do
  raise_if (not (is_clean_application reference s.applications a)) validation_error
  ok (record s { applications = update_row application_id a s.applications }, a)

unfoldable pub lift_registry : {A : Type 0} → Result RegistryError A → Result AdmissionError A
lift_registry (ok a) = ok a
lift_registry (err e) = err (registry_refused e)

-- `f"application_ref:{year}"` and `f"APP/{year}/{sequence:05d}"`
unfoldable pub generate_reference_number :
    Registry → (academic_year_name : String) → Registry × String
generate_reference_number r academic_year_name =
    let year = leading_year academic_year_name in
    let next = allocate r.sequences (concat_text ("application_ref:" ∷ year ∷ [])) in
    (record r { sequences = next.0 }, concat_text ("APP/" ∷ year ∷ "/" ∷ padded 5 next.1 ∷ []))

-- the arguments of `create_application`
pub record Form : Type 0 where
  pub programme_id : ℕ
  pub intended_academic_year_id : ℕ
  pub first_name : String
  pub middle_name : String
  pub last_name : String
  pub gender : String
  pub nationality : Option String
  pub phone : String
  pub email : String
  pub state_of_origin : String
  pub has_disability : Bool
  pub disability_details : String
  pub previous_grade : String
  pub source : ApplicationSource
  pub applicant_user : Option ℕ
  pub entered_by : Option ℕ

abbrev pub application_of : (id : ℕ) → (reference_number : String) → Form → Application
application_of id reference_number f = record {
  id = id;
  reference_number = reference_number;
  user = f.applicant_user;
  programme = f.programme_id;
  intended_academic_year = f.intended_academic_year_id;
  first_name = strip f.first_name;
  middle_name = f.middle_name;
  last_name = strip f.last_name;
  gender = f.gender;
  nationality = or_else f.nationality "South Sudanese";
  phone = f.phone;
  email = f.email;
  state_of_origin = f.state_of_origin;
  has_disability = f.has_disability;
  disability_details = f.disability_details;
  previous_grade = f.previous_grade;
  status = draft;
  source = f.source;
  entered_by = f.entered_by;
  submitted_at = none;
  score = none;
  reviewed_by = none;
  reviewed_at = none;
  decision_reason = "";
  fee_paid = false;
  student = none;
}

unfoldable pub create_application :
    Reference → Admissions → Form → Result AdmissionError (Admissions × Application)
create_application reference s form = do
  year_name ← lift_registry (academic_year_name reference.year_names form.intended_academic_year_id)
  let numbered = generate_reference_number s.registry year_name
  let a = application_of (next_key application_id s.applications) numbered.1 form
  raise_if (not (is_clean_application reference s.applications a)) validation_error
  ok (record s { applications = a ∷ s.applications; registry = numbered.0 }, a)
