-- ===== src/Examples/Intake.antt =====
-- Runs of the workflow of applications.
use uni_acmis.Prelude.{
  next, done, ◌≤◌, ◌≡◌, refl, ◌+◌, String, none, some, true, false, [], ◌∷◌, concat_text, padded,
  text_length, strip, before_mark, ok, All, get, pos, ℤ, Option, err,
}
use uni_acmis.Core.Sequences.{allocate}
use uni_acmis.Finance.Ledger.{PaymentStatus}
use uni_acmis.Registry.{Reference}
use uni_acmis.Registry.Creation.{academic_year_name, leading_year}
use uni_acmis.Registry.Moves.{empty_registry}
use uni_acmis.Admissions.Applications.{
  Application, application_id, submitted, ApplicationSource, Admissions, Form, application_of,
  create_application, generate_reference_number, lift_registry, is_clean_application,
  save_application, transition, allowed,
}
use uni_acmis.Admissions.Applications.Decisions.{submit_application, missing_to_submit}
use uni_acmis.Admissions.Applications.{withdrawn, ApplicationFeePayment, FeePaymentStatus}
use uni_acmis.Admissions.MeritList.{word}
use uni_acmis.Admissions.MeritList.Rules.{
  RawRules, key_error, number, text, field, int_of, total_of, read_bucket, read_buckets,
  read_capped, read_rules,
}
use uni_acmis.Admissions.Applications.Fees.{
  PaymentIntent, initiate_fee_payment, confirm_fee_payment, apply_fee_state, mark_paid,
  save_fee_payment,
}
use uni_acmis.Admissions.Applications.Evidence.{IsEvident}
use uni_acmis.Admissions.Applications.Workflow.{
  Steps, creates, initiates, pays, submits, applications-IsEvident, workflow_ends, status_changes,
  rank,
}

abbrev reference : Reference
reference = record {
  year_names = (1, "2026/2027") ∷ [];
  faculties = [];
  departments = [];
  programmes = [];
  versions = [];
  render = λ tokens year seq. some (concat_text (year ∷ "-" ∷ padded 4 seq ∷ []));
  is_email = λ s. true;
}

abbrev form : Form
form = record {
  programme_id = 1;
  intended_academic_year_id = 1;
  first_name = "Ayen";
  middle_name = "";
  last_name = "Deng";
  gender = "female";
  nationality = none;
  phone = "0912";
  email = "";
  state_of_origin = "";
  has_disability = false;
  disability_details = "";
  previous_grade = "B";
  source = ApplicationSource.self_service;
  applicant_user = none;
  entered_by = none;
}

abbrev started : Admissions
started = record { fee_payments = []; applications = []; registry = empty_registry [] }

abbrev opened : Application
opened = application_of 1 "APP/2026/00001" form

abbrev opened_state : Admissions
opened_state = record {
  fee_payments = [];
  applications = opened ∷ [];
  registry = record (empty_registry []) {
    sequences = record { scope = "application_ref:2026"; last_value = 1 } ∷ [];
  };
}

abbrev opened_withdrawn : Application
opened_withdrawn = record opened { id = 3; status = withdrawn }

abbrev fee : ApplicationFeePayment
fee = record {
  id = 1;
  application = 1;
  provider = "mobile";
  reference = "R1";
  amount = pos 500;
  currency = "SSP";
  status = FeePaymentStatus.pending;
  confirmed_at = none;
}

abbrev says_confirmed : String → PaymentStatus
says_confirmed r = PaymentStatus.confirmed

abbrev paid : Application
paid = record opened { fee_paid = true }

abbrev sent : Application
sent = record paid { status = submitted; submitted_at = some 70 }

abbrev sent_state : Admissions
sent_state = record opened_state {
  fee_payments = record fee { status = FeePaymentStatus.confirmed; confirmed_at = some 60 } ∷ [];
  applications = sent ∷ [];
}

opened_made : create_application reference started form ≡ ok (opened_state, opened)
unfolding create_application lift_registry academic_year_name is_clean_application text_length strip
    generate_reference_number concat_text leading_year before_mark padded allocate
opened_made = refl

abbrev says_intent : ℤ → String → String → String → Option PaymentIntent
says_intent amount currency payer invoice = some (record { provider = "mobile"; reference = "R1" })

abbrev asked_state : Admissions
asked_state = record opened_state { fee_payments = fee ∷ [] }

abbrev paid_state : Admissions
paid_state = record sent_state { applications = paid ∷ [] }

fee_initiated :
    initiate_fee_payment says_intent opened_state opened (pos 500) "SSP" ≡ some (asked_state, fee)
unfolding initiate_fee_payment
fee_initiated = refl

fee_confirmed : confirm_fee_payment says_confirmed 60 asked_state fee ≡ some paid_state
unfolding confirm_fee_payment apply_fee_state save_fee_payment mark_paid
fee_confirmed = refl

sent_made : submit_application reference 70 paid_state paid ≡ ok (sent_state, sent)
unfolding submit_application save_application transition allowed missing_to_submit
    is_clean_application text_length strip
sent_made = refl

abbrev rest_of_run : Steps reference opened_state sent_state
rest_of_run = next (initiates says_intent opened (pos 500) "SSP" fee refl fee_initiated) (
    next (pays says_confirmed 60 fee refl fee_confirmed)
      (next (submits 70 paid sent refl sent_made) done))

applications-IsEvident_example : All IsEvident (sent ∷ [])
applications-IsEvident_example =
    applications-IsEvident reference (empty_registry []) sent_state
      (next (creates form opened opened_made) rest_of_run)

workflow_ends_example :
    (y : Application) × (get application_id 1 (sent ∷ []) ≡ some y)
    × (status_changes 1 rest_of_run + 0 ≤ rank y.status)
    × (status_changes 1 rest_of_run ≤ 5)
workflow_ends_example = workflow_ends reference opened_state sent_state rest_of_run 1 opened refl

-- one of the buckets has a text for its seats
abbrev raw_rules : RawRules
raw_rules = record {
  total_seats = number (pos 1);
  reserved =
      record { category = some "gender"; value = some (word "female"); seats = some (text "1") }
      ∷ [];
}

abbrev parse : String → Option ℤ
parse s = some (pos 1)

abbrev rival : Application
rival = record sent {
  id = 2;
  reference_number = "APP/2026/00002";
  first_name = "Mary";
  score = some (pos 7000);
}

-- the rules of the example can be read, and without their seats they cannot
rules_read :
    read_rules parse raw_rules
    ≡ ok (record {
      total_seats = some 1;
      reserved =
          record { label = record { category = "gender"; value = word "female" }; seats = 1 } ∷ [];
    })
unfolding read_rules read_capped read_buckets read_bucket field int_of total_of
rules_read = refl

bucket_refused :
    read_bucket parse
      (record { category = some "gender"; value = some (word "female"); seats = none })
    ≡ err key_error
unfolding read_bucket field
bucket_refused = refl
