-- ===== src/Examinations/Appeals.antt =====
-- Grade appeals: backend/apps/examinations/services.py, with `GradeAppeal` of
-- backend/apps/examinations/models.py.
use uni_acmis.Prelude.{
  ℕ, String, Option, none, some, Bool, true, false, not, List, ◌∷◌, next_key, update_row, is_blank,
  Result, ok, ◌>>◌, raise_if,
}

pub data AppealStatus : Type 0 where
  submitted under_review upheld rejected : AppealStatus

pub record GradeAppeal : Type 0 where
  pub id : ℕ
  pub registration : ℕ
  pub assessment : Option ℕ
  pub reason : String
  pub status : AppealStatus
  pub submitted_by : Option ℕ
  pub decided_by : Option ℕ
  pub decision_notes : String
  pub decided_at : Option ℕ

pub data AppealError : Type 0 where
  no_reason already_decided invalid_decision : AppealError

abbrev pub appeal_id : GradeAppeal → ℕ
appeal_id a = a.id

unfoldable pub submit_appeal :
    List GradeAppeal
    → (registration_id : ℕ) → Option ℕ
    → String
    → Option ℕ
    → Result AppealError (List GradeAppeal × GradeAppeal)
submit_appeal rows registration_id assessment_id reason actor = do
  raise_if (is_blank reason) no_reason
  let appeal : GradeAppeal = record {
    id = next_key appeal_id rows;
    registration = registration_id;
    assessment = assessment_id;
    reason = reason;
    status = submitted;
    submitted_by = actor;
    decided_by = none;
    decision_notes = "";
    decided_at = none;
  }
  ok (appeal ∷ rows, appeal)

abbrev pub is_decided : AppealStatus → Bool
is_decided submitted = false
is_decided under_review = false
is_decided upheld = true
is_decided rejected = true

-- `decide_appeal`; a decision is a status, and another text than its four is not modelled
unfoldable pub decide_appeal :
    (now : ℕ)
    → List GradeAppeal
    → GradeAppeal
    → (decision : AppealStatus) → (notes : String) → Option ℕ
    → Result AppealError (List GradeAppeal × GradeAppeal)
decide_appeal now rows appeal decision notes actor = do
  raise_if (is_decided appeal.status) already_decided
  raise_if (not (is_decided decision)) invalid_decision
  raise_if (is_blank notes) no_reason
  let appeal' : GradeAppeal = record appeal {
    status = decision;
    decided_by = actor;
    decision_notes = notes;
    decided_at = some now;
  }
  ok (update_row appeal_id appeal' rows, appeal')
