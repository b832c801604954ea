-- ===== src/Examples/Grades.antt =====
-- Runs of the grading scale, the averages and a course result.
use native.Mathlib.Omega.{arith}
use uni_acmis.Prelude.{
  err, ℕ, ◌≤◌, ◌≡◌, ◌≢◌, refl, none, some, true, false, List, [], ◌∷◌, ok, pos, count_if, sorted_by,
  All,
}
use uni_acmis.Decimal.{half_up, half_even, scale_for, round_context, quantize}
use uni_acmis.Academics.Bands.{
  GradeBand, GradingScale, contains, all_bands, by_min_descending, get_default, validate_bands,
  validate_ordered, by_min, check_each, check_pairs, last_band,
}
use uni_acmis.Academics.Bands.Cover.{validate_bands-cover}
use uni_acmis.Academics.Grading.{
  Entry, course_grade, pair, gpa, grade_for, as_decimal, bands_to_use, grade_in, contains_decimal,
  gap_in_scale, totals_from, add_entry, weigh, average,
}
use uni_acmis.Academics.Grading.Average.{gpa_bounds}
use uni_acmis.Enrollment.{CourseRegistration, registered}
use uni_acmis.Enrollment.Lookups.{course_id_for_registration}
use uni_acmis.Examinations.Assessments.{Assessment, assessments_of, by_sequence}
use uni_acmis.Examinations.Marks.{Mark, find_mark, effective_score}
use uni_acmis.Examinations.Results.{
  validate_assessment_weights, check_weights, course_result, scheme_for,
}
use uni_acmis.Examinations.Results.Graded.{course_result-graded, FullyMarked, Shows}
use uni_acmis.Examinations.Results.Complete.{course_result_complete, Settled}

abbrev failing : GradeBand
failing = record {
  letter = "F";
  min_percent = 0;
  max_percent = 4999;
  grade_point = 0;
  is_pass = false;
  description = "Fail";
}

abbrev passing : GradeBand
passing = record {
  letter = "P";
  min_percent = 5000;
  max_percent = 10000;
  grade_point = 400;
  is_pass = true;
  description = "Pass";
}

abbrev two_bands : GradingScale
two_bands = record {
  name = "Two bands";
  max_grade_point = 400;
  pass_grade_point = 200;
  is_default = true;
  is_locked = false;
  bands = failing ∷ passing ∷ [];
}

two_bands_valid : validate_bands two_bands two_bands.bands ≡ ok tt
unfolding validate_bands validate_ordered by_min check_each check_pairs last_band sorted_by
two_bands_valid = refl

validate_bands-cover_example : count_if (λ b. contains b 7250) two_bands.bands ≡ 1
validate_bands-cover_example =
    validate_bands-cover two_bands two_bands.bands 7250 two_bands_valid (omega arith)

-- a third decimal falls between two bands of a valid scale
third_decimal :
    grade_for [] (some (record { coefficient = pos 49995; scale = 3 })) (some two_bands) none
    ≡ err gap_in_scale
unfolding grade_for as_decimal bands_to_use grade_in contains_decimal all_bands sorted_by
    by_min_descending
third_decimal = refl

abbrev two_courses : List Entry
two_courses = course_grade 3 400 true ∷ pair 4 300 ∷ []

two_courses_gpa : gpa two_courses ≡ some 343
unfolding gpa totals_from add_entry weigh average quantize half_up round_context half_even scale_for
two_courses_gpa = refl

gpa_bounds_example : (300 ≤ 343) × (343 ≤ 400)
gpa_bounds_example =
    gpa_bounds 300 400 two_courses 343 (omega arith)
      ((λ _. (omega arith, omega arith)), ((λ _. (omega arith, omega arith)), tt)) two_courses_gpa

abbrev coursework : Assessment
coursework = record {
  id = 1;
  course = 7;
  name = "Coursework";
  weight_percent = 4000;
  max_score = 3000;
  sequence = 1;
  grade_entry_deadline = none;
}

abbrev final_exam : Assessment
final_exam = record {
  id = 2;
  course = 7;
  name = "Final";
  weight_percent = 6000;
  max_score = 10000;
  sequence = 2;
  grade_entry_deadline = none;
}

abbrev mark_of : (id assessment score : ℕ) → Mark
mark_of id assessment score = record {
  id = id;
  registration = 5;
  assessment = assessment;
  score = pos score;
  is_late = false;
  moderated_score = none;
  moderated_by = none;
  moderation_notes = "";
  is_irregular = false;
  irregularity_notes = "";
  entered_by = none;
}

abbrev two_marks : List Mark
two_marks = mark_of 1 1 2000 ∷ mark_of 2 2 7150 ∷ []

abbrev one_registration : List CourseRegistration
one_registration =
    record {
      id = 5;
      student = 9;
      course = 7;
      semester = 2;
      status = registered;
      is_repeat = false;
      registered_by = none;
      dropped_at = none;
      drop_reason = "";
      hold_override_by = none;
      override_reason = "";
      completed_by = none;
      completed_at = none;
    }
    ∷ []

abbrev scheme : List Assessment
scheme = final_exam ∷ coursework ∷ []

scheme_ordered : assessments_of scheme 7 ≡ coursework ∷ final_exam ∷ []
unfolding assessments_of by_sequence sorted_by
scheme_ordered = refl

weights_valid : validate_assessment_weights scheme 7 ≡ ok tt
unfolding validate_assessment_weights check_weights assessments_of by_sequence sorted_by
weights_valid = refl

course_found : course_id_for_registration one_registration 5 ≡ some 7
unfolding course_id_for_registration
course_found = refl

default_found : get_default (two_bands ∷ []) ≡ some two_bands
unfolding get_default
default_found = refl

fully_marked : All (FullyMarked two_marks 5) (assessments_of scheme 7)
unfolding assessments_of by_sequence sorted_by find_mark effective_score
fully_marked = (
  (mark_of 1 1 2000, 2000, refl, refl, refl, omega arith),
  ((mark_of 2 2 7150, 7150, refl, refl, refl, omega arith), tt),
)

course_result-graded_example :
    (q : ℕ) × (b : GradeBand) × (q ≤ 10000)
    × (contains b q ≡ true)
    × Shows (course_result (two_bands ∷ []) scheme two_marks one_registration 5) q b
course_result-graded_example =
    course_result-graded (two_bands ∷ []) scheme two_marks one_registration 5 7 two_bands
      course_found weights_valid fully_marked default_found two_bands_valid

two_marks_graded :
    (course_result (two_bands ∷ []) scheme two_marks one_registration 5).grade_point ≢ none
two_marks_graded h =
    let (q, b, _, _, (_, _, _, _, _, point, _)) = course_result-graded_example in
    ground (arith, point, h)

course_result_complete_example :
    (check_weights (scheme_for scheme (course_id_for_registration one_registration 5)) ≡ ok tt)
    × All (Settled two_marks 5) (scheme_for scheme (course_id_for_registration one_registration 5))
course_result_complete_example =
    course_result_complete (two_bands ∷ []) scheme two_marks one_registration 5 two_marks_graded
