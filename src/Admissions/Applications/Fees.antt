-- ===== src/Admissions/Applications/Fees.antt =====
-- The fee of an application, and the documents that are attached to one. What the payment provider answers
-- and the digest of a file are arguments.
use text.Mathlib.Text.{◌==◌ as str_eq}
use uni_acmis.Prelude.{
  any, if◌then◌else◌, ℕ, ◌*◌, String, Option, none, some, true, List, ◌∷◌, get, next_key,
  update_row, ltb, Result, ok, ◌>>◌, raise_if, ℤ,
}
use uni_acmis.Admissions.Applications.{
  Application, application_id, Admissions, ApplicationFeePayment, FeePaymentStatus, payment_id,
  AdmissionError, validation_error,
}
use uni_acmis.Finance.Ledger.{PaymentStatus}

-- what `initiate` of the provider returns
pub record PaymentIntent : Type 0 where
  pub provider : String
  pub reference : String

-- `initiate` may raise, which is an answer without an intent; a reference that is taken is an error
unfoldable pub initiate_fee_payment :
    (initiate : (amount : ℤ) → (currency payer_ref invoice_ref : String) → Option PaymentIntent)
    → Admissions
    → Application
    → (amount : ℤ) → (currency : String) → Option (Admissions × ApplicationFeePayment)
initiate_fee_payment initiate s a amount currency =
    elim (initiate amount currency a.reference_number a.reference_number) [
      | none ↦ none
      | some intent ↦
          let p : ApplicationFeePayment = record {
            id = next_key payment_id s.fee_payments;
            application = a.id;
            provider = intent.provider;
            reference = intent.reference;
            amount = amount;
            currency = currency;
            status = FeePaymentStatus.pending;
            confirmed_at = none;
          } in
          if any (λ q. str_eq q.reference intent.reference) s.fee_payments
          then none
          else some (record s { fee_payments = p ∷ s.fee_payments }, p)
    ]

-- `Application.objects.filter(pk=...).update(fee_paid=True)`
unfoldable pub mark_paid : (application : ℕ) → List Application → List Application
mark_paid k applications = elim (get application_id k applications) [
  | some a ↦ update_row application_id (record a { fee_paid = true }) applications
  | none ↦ applications
]

-- `payment.save(update_fields=...)`, which raises for a payment that is not stored
unfoldable pub save_fee_payment : Admissions → ApplicationFeePayment → Option Admissions
save_fee_payment s p = elim (get payment_id p.id s.fee_payments) [
  | none ↦ none
  | some stored ↦ some (record s { fee_payments = update_row payment_id p s.fee_payments })
]

-- what the state that the provider reports does to a payment and to its application
unfoldable pub apply_fee_state :
    PaymentStatus → (now : ℕ) → Admissions → ApplicationFeePayment → Option Admissions
apply_fee_state PaymentStatus.confirmed now s p =
    elim (save_fee_payment s
      (record p { status = FeePaymentStatus.confirmed; confirmed_at = some now })) [
        | none ↦ none
        | some t ↦ some (record t { applications = mark_paid p.application t.applications })
      ]
apply_fee_state PaymentStatus.failed now s p =
    save_fee_payment s (record p { status = FeePaymentStatus.failed })
apply_fee_state PaymentStatus.pending now s p = some s
apply_fee_state PaymentStatus.cancelled now s p = some s

unfoldable pub confirm_fee_payment :
    (status : String → PaymentStatus)
    → (now : ℕ) → Admissions
    → ApplicationFeePayment
    → Option Admissions
confirm_fee_payment status now s p = apply_fee_state (status p.reference) now s p

pub record ApplicationDocument : Type 0 where
  pub id : ℕ
  pub application : ℕ
  pub document_type : String
  pub title : String
  pub file_size : ℕ
  pub content_hash : String
  pub uploaded_by : Option ℕ

-- an uploaded file: its size and its content
pub record UploadedFile : Type 0 where
  pub size : ℕ
  pub content : String

abbrev pub document_id : ApplicationDocument → ℕ
document_id d = d.id

unfoldable pub attach_document :
    (max_upload_size_mb : ℕ)
    → (digest : String → String) → List ApplicationDocument
    → Application
    → (document_type title : String) → UploadedFile
    → (uploaded_by : Option ℕ)
    → Result AdmissionError (List ApplicationDocument × ApplicationDocument)
attach_document max_upload_size_mb digest documents a document_type title file uploaded_by = do
  raise_if (ltb (max_upload_size_mb * 1024 * 1024) file.size) validation_error
  let d : ApplicationDocument = record {
    id = next_key document_id documents;
    application = a.id;
    document_type = document_type;
    title = title;
    file_size = file.size;
    content_hash = digest file.content;
    uploaded_by = uploaded_by;
  }
  ok (d ∷ documents, d)
