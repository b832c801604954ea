-- ===== src/Examinations/Assessments.antt =====
-- Assessments: backend/apps/examinations/services.py, with `Assessment` of
-- backend/apps/examinations/models.py. Weights and maxima are in hundredths. The course of a new
-- assessment is taken to exist.
use text.Mathlib.Text.{◌==◌ as str_eq}
use uni_acmis.Prelude.{
  ℕ, ◌^◌, String, Option, Bool, ◌&&◌, ◌||◌, not, or_else, List, [], ◌∷◌, ◌++◌, keep, any, next_key,
  update_row, ltb, leb, ◌==◌, text_length, Result, ok, ◌>>◌, raise_if, ℤ, pos, pos_part, ltb_ℤ,
  sorted_by,
}

pub record Assessment : Type 0 where
  pub id : ℕ
  pub course : ℕ
  pub name : String
  pub weight_percent : ℕ
  pub max_score : ℕ
  pub sequence : ℕ
  pub grade_entry_deadline : Option ℕ

pub data ExamError : Type 0 where
  dropped_registration reason_required : ExamError
  assessment_not_found registration_not_found : ExamError
  score_above_maximum score_negative too_many_digits : ExamError
  invalid_name name_taken weight_out_of_range invalid_sequence : ExamError

abbrev pub assessment_id : Assessment → ℕ
assessment_id a = a.id

-- the assessments of a course, in the order of their sequence
unfoldable pub by_sequence : Assessment → Assessment → Bool
by_sequence a b = leb a.sequence b.sequence

unfoldable pub assessments_of : List Assessment → ℕ → List Assessment
assessments_of assessments course_id =
    sorted_by by_sequence (keep (λ a. a.course == course_id) assessments)

-- `Assessment.full_clean`: the checks of the fields and of the unique name; a value that the field
-- can hold has two decimals
unfoldable pub clean_assessment :
    List Assessment → Assessment → (weight_percent : ℤ) → Result ExamError (Unit {0})
clean_assessment rows a weight_percent = do
  raise_if ((text_length a.name == 0) || ltb 100 (text_length a.name)) invalid_name
  raise_if (ltb_ℤ weight_percent (pos 0) || ltb_ℤ (pos 10000) weight_percent) weight_out_of_range
  raise_if (leb (10 ^ 6) a.max_score) too_many_digits
  raise_if (ltb 32767 a.sequence) invalid_sequence
  raise_if (any (λ o. (o.course == a.course) && str_eq o.name a.name && not (o.id == a.id)) rows)
      name_taken

unfoldable pub create_assessment :
    List Assessment
    → (course_id : ℕ) → (name : String) → (weight_percent : ℤ) → (max_score sequence : ℕ) → Option ℕ
    → Result ExamError (List Assessment × Assessment)
create_assessment rows course_id name weight_percent max_score sequence deadline = do
  let assessment : Assessment = record {
    id = next_key assessment_id rows;
    course = course_id;
    name = name;
    weight_percent = pos_part weight_percent;
    max_score = max_score;
    sequence = sequence;
    grade_entry_deadline = deadline;
  }
  clean_assessment rows assessment weight_percent
  ok (rows ++ assessment ∷ [], assessment)

-- an argument that may be left out
abbrev pub given : {A : Type 0} → Option A → A → A
given o old = or_else o old

unfoldable pub update_assessment :
    List Assessment
    → Assessment
    → Option String
    → Option ℤ
    → Option ℕ
    → Option ℕ
    → Option (Option ℕ)
    → Result ExamError (List Assessment × Assessment)
update_assessment rows a name weight_percent max_score sequence deadline = do
  let weight = given weight_percent (pos a.weight_percent)
  let assessment = record a {
    name = given name a.name;
    weight_percent = pos_part weight;
    max_score = given max_score a.max_score;
    sequence = given sequence a.sequence;
    grade_entry_deadline = given deadline a.grade_entry_deadline;
  }
  clean_assessment rows assessment weight
  ok (update_row assessment_id assessment rows, assessment)
