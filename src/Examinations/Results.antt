-- ===== src/Examinations/Results.antt =====
-- Course results: `validate_assessment_weights`, `course_result` and `semester_gpa` of
-- backend/apps/examinations/services.py. Percentages are signed hundredths.
pub mod Graded
pub mod Complete
use uni_acmis.Prelude.{
  ℕ, zero, suc, ◌+◌, String, Option, none, some, Bool, true, false, ◌&&◌, ◌||◌, not, is_none, List,
  [], ◌∷◌, ◌++◌, map, sum_by, ◌==◌, if◌then◌else◌, Result, ok, err, ℤ, pos, negsuc, ◌+ℤ◌,
}
use uni_acmis.Decimal.{Decimal, round_context, multiply, quantize}
use uni_acmis.Academics.Bands.{GradingScale}
use uni_acmis.Academics.Grading.{
  GradingError, GradeResult, hundredths, grade_for, Entry, pair, course_grade, gpa,
}
use uni_acmis.Curriculum.{Course}
use uni_acmis.Enrollment.{Registrations, CourseRegistration, credit_hours}
use uni_acmis.Enrollment.Lookups.{course_id_for_registration, registrations_for_student}
use uni_acmis.Examinations.Assessments.{Assessment, assessments_of}
use uni_acmis.Examinations.Marks.{Mark, effective_score, find_mark}

pub data ConfigurationError : Type 0 where
  no_scheme : ConfigurationError
  weights_total : ℕ → ConfigurationError
  grading : GradingError → ConfigurationError

-- the test on the weights of a course's assessments
unfoldable pub check_weights : List Assessment → Result ConfigurationError (Unit {0})
check_weights [] = err no_scheme
check_weights (a ∷ assessments) =
    let total = sum_by (λ o. o.weight_percent) (a ∷ assessments) in
    if total == 10000 then ok tt else err (weights_total total)

unfoldable pub validate_assessment_weights :
    List Assessment → ℕ → Result ConfigurationError (Unit {0})
validate_assessment_weights assessments course_id =
    check_weights (assessments_of assessments course_id)

pub record Component : Type 0 where
  pub assessment : String
  pub weight_percent : ℕ
  pub score : Option ℤ
  pub max_score : Option ℕ

pub record CourseResult : Type 0 where
  pub registration_id : ℕ
  pub components : List Component
  pub complete : Bool
  pub has_irregularity : Bool
  pub configuration_error : Option ConfigurationError
  pub percent : Option ℤ
  pub letter : Option String
  pub grade_point : Option ℕ
  pub is_pass : Option Bool

-- `score / max_score if max_score else 0`, for a score that is not negative
unfoldable pub fraction : ℕ → ℕ → Decimal
fraction score max_score =
    if max_score == 0 then record { coefficient = 0; scale = 0 } else round_context score max_score

-- minus a number
abbrev pub minus : ℕ → ℤ
minus zero = pos zero
minus (suc n) = negsuc n

-- `_quantize(fraction * weight)`; division, product and rounding are symmetric in the sign
unfoldable pub contribution : ℤ → ℕ → ℕ → ℤ
contribution (pos score) max_score weight =
    pos (quantize (multiply (fraction score max_score) weight 2))
contribution (negsuc n) max_score weight =
    minus (quantize (multiply (fraction (suc n) max_score) weight 2))

-- what the loop over the assessments carries
pub record Tally : Type 0 where
  pub components : List Component
  pub percent : ℤ
  pub complete : Bool
  pub has_irregularity : Bool

-- the body of the loop
unfoldable pub tally_one : Tally → Assessment → Option Mark → Tally
tally_one t a none = record t {
  components =
      t.components
      ++ record {
        assessment = a.name;
        weight_percent = a.weight_percent;
        score = none;
        max_score = none;
      }
        ∷ [];
  complete = false;
}
tally_one t a (some mark) = record {
  components =
      t.components
      ++ record {
        assessment = a.name;
        weight_percent = a.weight_percent;
        score = some (effective_score mark);
        max_score = some a.max_score;
      }
        ∷ [];
  percent = t.percent +ℤ contribution (effective_score mark) a.max_score a.weight_percent;
  complete = t.complete;
  has_irregularity = if mark.is_irregular then true else t.has_irregularity;
}

unfoldable pub tally : List Mark → ℕ → Tally → List Assessment → Tally
tally marks registration_id t [] = t
tally marks registration_id t (a ∷ assessments) =
    tally marks registration_id (tally_one t a (find_mark marks registration_id a.id)) assessments

-- the assessments of the registration's course
unfoldable pub scheme_for : List Assessment → Option ℕ → List Assessment
scheme_for assessments none = []
scheme_for assessments (some course_id) = assessments_of assessments course_id

-- the configuration error that the scheme gives, where it has assessments
unfoldable pub scheme_error : List Assessment → Option ConfigurationError
scheme_error [] = none
scheme_error (a ∷ assessments) = elim (check_weights (a ∷ assessments)) [
  | ok _ ↦ none
  | err e ↦ some e
]

abbrev pub is_empty : {A : Type 0} → List A → Bool
is_empty [] = true
is_empty (_ ∷ _) = false

-- the tally of a scheme
unfoldable pub tally_scheme : List Mark → ℕ → List Assessment → Tally
tally_scheme marks registration_id scheme =
    tally marks registration_id
      (record {
        components = [];
        percent = pos 0;
        complete = not (is_empty scheme) && is_none (scheme_error scheme);
        has_irregularity = false;
      })
      scheme

-- the result before grading; `_quantize(percent)` is `percent`, a sum of values of two decimals
unfoldable pub ungraded : ℕ → List Assessment → Tally → CourseResult
ungraded registration_id scheme t = record {
  registration_id = registration_id;
  components = t.components;
  complete = t.complete;
  has_irregularity = t.has_irregularity;
  configuration_error = scheme_error scheme;
  percent = if is_empty scheme then none else some t.percent;
  letter = none;
  grade_point = none;
  is_pass = none;
}

-- the grade's outcome, written into the result
unfoldable pub apply_grade : CourseResult → Result GradingError GradeResult → CourseResult
apply_grade result (err e) = record result {
  complete = false;
  configuration_error = some (grading e);
}
apply_grade result (ok graded) = record result {
  letter = some graded.letter;
  grade_point = some graded.grade_point;
  is_pass = some graded.is_pass;
}

unfoldable pub grade_result : List GradingScale → Tally → CourseResult → CourseResult
grade_result scales t result =
    if t.complete && not t.has_irregularity
    then apply_grade result (grade_for scales (hundredths t.percent) none none)
    else result

unfoldable pub course_result :
    List GradingScale → List Assessment → List Mark → Registrations → ℕ → CourseResult
course_result scales assessments marks registrations registration_id =
    let scheme =
      scheme_for assessments (course_id_for_registration registrations registration_id) in
    let t = tally_scheme marks registration_id scheme in
    grade_result scales t (ungraded registration_id scheme t)

-- what a registration adds to the entries of the GPA
unfoldable pub gpa_entry : ℕ → Option ℕ → List Entry
gpa_entry credits none = []
gpa_entry credits (some grade_point) = course_grade credits grade_point true ∷ []

unfoldable pub gpa_entries :
    List GradingScale
    → List Assessment
    → List Mark
    → Registrations
    → List Course
    → List CourseRegistration
    → List Entry
gpa_entries scales assessments marks registrations courses [] = []
gpa_entries scales assessments marks registrations courses (r ∷ rows) =
    gpa_entry (credit_hours courses r.course)
      (course_result scales assessments marks registrations r.id).grade_point
    ++ gpa_entries scales assessments marks registrations courses rows

unfoldable pub semester_gpa :
    List GradingScale
    → List Assessment
    → List Mark
    → Registrations
    → List Course
    → (student_id semester_id : ℕ) → Option ℕ
semester_gpa scales assessments marks registrations courses student_id semester_id = gpa (
    gpa_entries scales assessments marks registrations courses
      (registrations_for_student registrations student_id semester_id))
