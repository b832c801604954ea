-- ===== src/Examinations/Marks.antt =====
-- Marks: backend/apps/examinations/services.py, with `Mark` of backend/apps/examinations/models.py.
-- Scores are in hundredths.
use uni_acmis.Prelude.{
  ℕ, ◌+◌, ◌^◌, String, Option, none, some, Bool, true, false, ◌&&◌, ◌||◌, is_none, or_else, List,
  [], ◌∷◌, ◌++◌, find_first, next_key, update_row, get, ltb, leb, ◌==◌, if◌then◌else◌, is_blank,
  Result, ok, err, ◌>>=◌, ◌>>◌, raise_if, ℤ, pos, pos_part, neg_part, ltb_ℤ, sorted_by,
}
use uni_acmis.Enrollment.{Registrations, RegistrationStatus, registered, dropped, completed, reg_id}
use uni_acmis.Enrollment.Lookups.{active_registration_ids}
use uni_acmis.Examinations.Assessments.{
  Assessment, assessment_id, assessments_of, ExamError, dropped_registration, reason_required,
  assessment_not_found, registration_not_found, score_above_maximum, score_negative,
  too_many_digits,
}

pub record Mark : Type 0 where
  pub id : ℕ
  pub registration : ℕ
  pub assessment : ℕ
  pub score : ℤ
  pub is_late : Bool
  pub moderated_score : Option ℤ
  pub moderated_by : Option ℕ
  pub moderation_notes : String
  pub is_irregular : Bool
  pub irregularity_notes : String
  pub entered_by : Option ℕ

abbrev pub mark_id : Mark → ℕ
mark_id m = m.id

-- `Mark.effective_score`
unfoldable pub effective_score : Mark → ℤ
effective_score m = or_else m.moderated_score m.score

-- a value that six digits cannot hold
abbrev pub too_long : ℤ → Bool
too_long x = leb (10 ^ 6) (pos_part x + neg_part x)

-- `Mark.full_clean`, with `Mark.clean`
unfoldable pub clean_mark : Assessment → Mark → Result ExamError (Unit {0})
clean_mark assessment mark = do
  raise_if (too_long mark.score || too_long (or_else mark.moderated_score (pos 0))) too_many_digits
  raise_if (ltb_ℤ (pos assessment.max_score) mark.score) score_above_maximum
  raise_if (ltb_ℤ mark.score (pos 0)) score_negative

unfoldable pub find_mark : List Mark → (registration_id assessment_id : ℕ) → Option Mark
find_mark marks registration_id assessment_id =
    find_first (λ m. (m.registration == registration_id) && (m.assessment == assessment_id)) marks

-- `Mark(registration_id=..., assessment_id=...)`
unfoldable pub new_mark : List Mark → (registration_id assessment_id : ℕ) → Mark
new_mark marks registration_id assessment_id = record {
  id = next_key mark_id marks;
  registration = registration_id;
  assessment = assessment_id;
  score = pos 0;
  is_late = false;
  moderated_score = none;
  moderated_by = none;
  moderation_notes = "";
  is_irregular = false;
  irregularity_notes = "";
  entered_by = none;
}

abbrev pub is_dropped : RegistrationStatus → Bool
is_dropped registered = false
is_dropped dropped = true
is_dropped completed = false

abbrev pub is_after : (now : ℕ) → Option ℕ → Bool
is_after now none = false
is_after now (some deadline) = ltb deadline now

unfoldable pub save_mark : Option Mark → Mark → List Mark → List Mark
save_mark none m marks = m ∷ marks
save_mark (some _) m marks = update_row mark_id m marks

abbrev pub require : {E A : Type 0} → E → Option A → Result E A
require e none = err e
require e (some a) = ok a

-- `record_mark`; the actor is a user's key, none for the anonymous user
unfoldable pub record_mark :
    List Assessment
    → Registrations
    → (now : ℕ) → List Mark
    → (registration_id assessment_id : ℕ) → (score : ℤ) → Option ℕ
    → Result ExamError (List Mark × Mark)
record_mark assessments registrations now marks registration_id assessment_key score actor = do
  assessment ← require assessment_not_found (get assessment_id assessment_key assessments)
  let existing = find_mark marks registration_id assessment_key
  let mark = or_else existing (new_mark marks registration_id assessment_key)
  registration ← require registration_not_found (get reg_id mark.registration registrations)
  raise_if (is_dropped registration.status) dropped_registration
  let mark = record mark {
    score = score;
    is_late = is_after now assessment.grade_entry_deadline;
    entered_by = actor;
  }
  clean_mark assessment mark
  ok (save_mark existing mark marks, mark)

-- the check and the save of a stored mark
unfoldable pub check_and_save :
    List Assessment → List Mark → Mark → Result ExamError (List Mark × Mark)
check_and_save assessments marks mark = do
  assessment ← require assessment_not_found (get assessment_id mark.assessment assessments)
  clean_mark assessment mark
  ok (update_row mark_id mark marks, mark)

unfoldable pub moderate_mark :
    List Assessment
    → List Mark
    → Mark
    → (moderated_score : ℤ) → (notes : String) → Option ℕ
    → Result ExamError (List Mark × Mark)
moderate_mark assessments marks mark moderated_score notes actor = do
  raise_if (is_blank notes) reason_required
  check_and_save assessments marks (record mark {
    moderated_score = some moderated_score;
    moderated_by = actor;
    moderation_notes = notes;
  })

unfoldable pub flag_irregularity :
    List Assessment → List Mark → Mark → (notes : String) → Result ExamError (List Mark × Mark)
flag_irregularity assessments marks mark notes = do
  raise_if (is_blank notes) reason_required
  check_and_save assessments marks (record mark { is_irregular = true; irregularity_notes = notes })

unfoldable pub clear_irregularity :
    List Assessment → List Mark → Mark → (notes : String) → Result ExamError (List Mark × Mark)
clear_irregularity assessments marks mark notes =
    check_and_save assessments marks
      (record mark { is_irregular = false; irregularity_notes = notes })

pub record MissingMark : Type 0 where
  pub registration_id : ℕ
  pub assessment : ℕ
  pub assessment_name : String

-- the pairs of one registration that have no mark
unfoldable pub missing_of : List Mark → ℕ → List Assessment → List MissingMark
missing_of marks registration_id [] = []
missing_of marks registration_id (a ∷ assessments) =
    let rest = missing_of marks registration_id assessments in
    if is_none (find_mark marks registration_id a.id)
    then record { registration_id = registration_id; assessment = a.id; assessment_name = a.name }
      ∷ rest
    else rest

unfoldable pub missing_in : List Mark → List Assessment → List ℕ → List MissingMark
missing_in marks assessments [] = []
missing_in marks assessments (registration_id ∷ ids) =
    missing_of marks registration_id assessments ++ missing_in marks assessments ids

-- `missing_marks_report`; with no registration or no assessment, the loops give nothing
unfoldable pub missing_marks_report :
    List Assessment → Registrations → List Mark → (course_id semester_id : ℕ) → List MissingMark
missing_marks_report assessments registrations marks course_id semester_id =
    missing_in marks (assessments_of assessments course_id)
      (sorted_by leb (active_registration_ids registrations course_id semester_id))
