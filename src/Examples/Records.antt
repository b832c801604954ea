-- ===== src/Examples/Records.antt =====
-- Runs of counters and of student records.
use uni_acmis.Curriculum.{Course, Programme}
use uni_acmis.Curriculum.Structure.{CurriculumCourse, curriculum_health, total_core_credits}
use uni_acmis.Curriculum.Structure.Configuration.{has_courses, covers_year, curriculum_health_iff}
use uni_acmis.Prelude.{
  next, done, ℕ, List, ◌≤◌, ◌↔◌, ◌≡◌, refl, ◌+◌, ◌⊎◌, none, some, is_none, true, false, ◌&&◌, [],
  ◌∷◌, length, concat_text, padded, text_length, strip, is_blank, ok,
}
use uni_acmis.Core.Sequences.Distinct.{answers, answers-AllDistinct, AllDistinct}
use uni_acmis.Curriculum.Structure.{programme_id_for_code}
use uni_acmis.Registry.{
  Student, active, suspended, Registry, Reference, is_clean_student, is_clean_id, are_clean_columns,
  passes_clean, is_graduated_status, version_belongs,
}
use uni_acmis.Registry.Creation.{NewStudent, create_student, identifier_for, student_of}
use uni_acmis.Registry.Status.{change_status, apply_status, same_status, allowed}
use uni_acmis.Registry.Import.{
  ImportRow, ImportReport, import_students, resolve_rows, resolve_import_row, row_problems,
  programme_of, year_of, version_of, academic_year_id_for_name, says_yes, lower_equals,
  candidate_is_clean, find_duplicates, seen_at, note_row, create_all,
}
use uni_acmis.Registry.Import.AllOrNothing.{import_students-all_or_nothing}
use uni_acmis.Registry.Trail.{latest, Chained}
use uni_acmis.Registry.Moves.{creates, changes, empty_registry, trail_tells_status}

answers-AllDistinct_example :
    AllDistinct (answers [] (("a", false) ∷ ("a", true) ∷ ("b", true) ∷ ("a", true) ∷ []))
answers-AllDistinct_example =
    answers-AllDistinct [] (("a", false) ∷ ("a", true) ∷ ("b", true) ∷ ("a", true) ∷ [])

abbrev reference : Reference
reference = record {
  year_names = (1, "2026/2027") ∷ [];
  faculties = [];
  departments = [];
  programmes = [];
  versions = [];
  render = λ tokens year seq. some (concat_text (year ∷ "-" ∷ padded 4 seq ∷ []));
  is_email = λ s. true;
}

abbrev newcomer : NewStudent
newcomer = record {
  programme_id = 1;
  entry_academic_year_id = 1;
  first_name = " Ayen ";
  last_name = "Deng";
  gender = "female";
  student_id = "S1";
  user = none;
  curriculum_version = none;
  middle_name = "";
  nationality = none;
  state_of_origin = "lakes";
  has_disability = false;
  disability_details = "";
  phone = "";
  email = "";
  admitted_on = none;
}

abbrev pub ayen : Student
ayen = student_of 10 1 "S1" newcomer

abbrev away : Student
away = record ayen { status = suspended }

abbrev enrolled : Registry
enrolled = record {
  students = ayen ∷ [];
  history =
      record {
        student = 1;
        from_status = none;
        to_status = active;
        reason = "Initial enrollment";
        effective_date = 10;
        changed_by = none;
        reference = "";
      }
      ∷ [];
  sequences = [];
}

abbrev suspended_now : Registry
suspended_now = record enrolled {
  students = away ∷ [];
  history =
      record {
        student = 1;
        from_status = some active;
        to_status = suspended;
        reason = "Leave";
        effective_date = 20;
        changed_by = some 4;
        reference = "";
      }
      ∷ enrolled.history;
}

ayen_made : create_student reference 10 (empty_registry []) newcomer none "" ≡ ok (enrolled, ayen)
unfolding create_student identifier_for is_clean_student is_clean_id are_clean_columns passes_clean
    version_belongs text_length strip
ayen_made = refl

ayen_suspended :
    change_status reference 20 enrolled ayen suspended "Leave" (some 4) none ""
    ≡ ok (suspended_now, away)
unfolding change_status same_status apply_status allowed is_clean_student is_clean_id
    are_clean_columns passes_clean version_belongs is_blank text_length strip
ayen_suspended = refl

trail_tells_status_example :
    Chained suspended_now.history
    × (latest 1 suspended_now.history ≡ some suspended)
    × ((is_graduated_status suspended && is_none away.graduated_on) ≡ false)
trail_tells_status_example =
    trail_tells_status reference [] suspended_now 1 away
      (next (creates 10 newcomer none "" ayen ayen_made)
        (next (changes 20 ayen away suspended "Leave" (some 4) none "" refl ayen_suspended) done))
      refl

abbrev science : Reference
science = record reference {
  programmes =
      record {
        id = 1;
        department = 1;
        code = "BSC";
        duration_years = 4;
        total_credits_required = 120;
        min_credits_per_semester = 9;
        max_credits_per_semester = 21;
      }
      ∷ [];
}

abbrev legacy : ImportRow
legacy = record {
  first_name = some " Ayen ";
  last_name = some "Deng";
  gender = some "female";
  programme_code = some "BSC";
  entry_academic_year = some "2026/2027";
  curriculum_version = none;
  student_id = some "S1";
  middle_name = none;
  state_of_origin = some "lakes";
  nationality = some "";
  phone = none;
  email = none;
  disability_details = none;
  has_disability = some "No";
}

abbrev imported : Registry
imported = record {
  students = record ayen { first_name = "Ayen" } ∷ [];
  history =
      record {
        student = 1;
        from_status = none;
        to_status = active;
        reason = "Bulk legacy import";
        effective_date = 10;
        changed_by = none;
        reference = "";
      }
      ∷ [];
  sequences = [];
}

abbrev report : ImportReport
report = record { total = 1; valid = 1; created = 1; errors = [] }

legacy-imported :
    import_students science 10 (empty_registry []) (legacy ∷ []) true none ""
    ≡ ok (imported, report)
unfolding import_students resolve_rows resolve_import_row row_problems programme_of year_of
    version_of programme_id_for_code academic_year_id_for_name says_yes lower_equals
    candidate_is_clean find_duplicates seen_at create_all create_student identifier_for
    is_clean_student is_clean_id are_clean_columns passes_clean version_belongs text_length strip
    note_row
legacy-imported = refl

import_students-all_or_nothing_example :
    ((imported ≡ empty_registry []) × (report.created ≡ 0))
    ⊎ ((true ≡ true)
        × (report.errors ≡ [])
        × (report.created ≡ 1)
        × (length imported.students ≡ 0 + 1))
import_students-all_or_nothing_example =
    import_students-all_or_nothing science 10 (empty_registry []) imported (legacy ∷ []) true none
      "" report legacy-imported

abbrev algebra : Course
algebra = record { id = 7; code = "MAT1"; credit_hours = 3 }

abbrev short_programme : Programme
short_programme = record {
  id = 1;
  department = 1;
  code = "CERT";
  duration_years = 1;
  total_credits_required = 3;
  min_credits_per_semester = 3;
  max_credits_per_semester = 21;
}

abbrev first_year : List CurriculumCourse
first_year =
    record {
      curriculum_version = 2;
      course = 7;
      year_of_study = 1;
      semester_sequence = 1;
      is_core = true;
    }
    ∷ []

curriculum_health_iff_example :
    ((curriculum_health (algebra ∷ []) first_year short_programme 2).healthy ≡ true) ↔ (
      (3 ≤ total_core_credits (algebra ∷ []) first_year 2)
      × (has_courses first_year 2 ≡ true)
      × ((year : ℕ) → 1 ≤ year → year ≤ 1 → covers_year first_year 2 year ≡ true))
curriculum_health_iff_example = curriculum_health_iff (algebra ∷ []) first_year short_programme 2
