-- ===== src/Curriculum/Structure.antt =====
-- The structure of faculties, departments, programmes and curriculum versions, and the report on the
-- configuration of a version.
pub mod Configuration
use text.Mathlib.Text.{◌==◌ as str_eq}
use uni_acmis.Prelude.{
  ℕ, zero, suc, ◌-◌, String, Option, none, some, Bool, true, false, ◌&&◌, ◌||◌, not, List, [], ◌∷◌,
  ◌++◌, any, keep, find_first, get, length, sum_by, ltb, ◌==◌, if◌then◌else◌,
}
use uni_acmis.Curriculum.{Course, Programme}

pub record Faculty : Type 0 where
  pub id : ℕ
  pub code : String

pub record Department : Type 0 where
  pub id : ℕ
  pub faculty : ℕ
  pub code : String

pub data CurriculumStatus : Type 0 where
  draft active retired : CurriculumStatus

pub record CurriculumVersion : Type 0 where
  pub id : ℕ
  pub programme : ℕ
  pub version : String
  pub status : CurriculumStatus

pub record CurriculumCourse : Type 0 where
  pub curriculum_version : ℕ
  pub course : ℕ
  pub year_of_study : ℕ
  pub semester_sequence : ℕ
  pub is_core : Bool

abbrev pub is_active : CurriculumStatus → Bool
is_active draft = false
is_active active = true
is_active retired = false

unfoldable pub active_curriculum_for :
    List CurriculumVersion → (programme_id : ℕ) → Option CurriculumVersion
active_curriculum_for versions programme_id =
    find_first (λ v. (v.programme == programme_id) && is_active v.status) versions

-- the key of the row found, if there is one
abbrev pub key_of : {A : Type 0} → (A → ℕ) → Option A → Option ℕ
key_of key none = none
key_of key (some a) = some (key a)

unfoldable pub programme_id_for_code : List Programme → (code : String) → Option ℕ
programme_id_for_code programmes code =
    key_of (λ p. p.id) (find_first (λ p. str_eq p.code code) programmes)

unfoldable pub curriculum_version_id_for :
    List CurriculumVersion → (programme_id : ℕ) → (version : String) → Option ℕ
curriculum_version_id_for versions programme_id version =
    key_of (λ v. v.id)
      (find_first (λ v. (v.programme == programme_id) && str_eq v.version version) versions)

unfoldable pub department_id_for_programme : List Programme → (programme_id : ℕ) → Option ℕ
department_id_for_programme programmes programme_id =
    key_of (λ p. p.department) (get (λ p. p.id) programme_id programmes)

-- a filter that is left out keeps all
abbrev pub passes : (filter : Option ℕ) → ℕ → Bool
passes none v = true
passes (some k) v = v == k

unfoldable pub courses_for :
    List CurriculumCourse
    → (curriculum_version_id : ℕ) → (year_of_study semester_sequence : Option ℕ)
    → (core_only : Bool) → List CurriculumCourse
courses_for entries curriculum_version_id year_of_study semester_sequence core_only =
    keep
      (λ e.
        (e.curriculum_version == curriculum_version_id)
        && passes year_of_study e.year_of_study
        && passes semester_sequence e.semester_sequence
        && (not core_only || e.is_core))
      entries

-- the codes that student identifiers are built from
pub record IdTokens : Type 0 where
  pub faculty : String
  pub programme : String
  pub department : String

unfoldable pub id_tokens_for_programme :
    List Faculty → List Department → List Programme → (programme_id : ℕ) → Option IdTokens
id_tokens_for_programme faculties departments programmes programme_id =
    elim (get (λ p. p.id) programme_id programmes) [
      | none ↦ none
      | some p ↦ elim (get (λ d. d.id) p.department departments) [
        | none ↦ none
        | some d ↦ elim (get (λ f. f.id) d.faculty faculties) [
          | none ↦ none
          | some f ↦ some (record { faculty = f.code; programme = p.code; department = d.code })
        ]
      ]
    ]

-- the credit hours of a course of the catalogue
unfoldable pub credit_hours_of : List Course → ℕ → ℕ
credit_hours_of courses k = elim (get (λ c. c.id) k courses) [ none ↦ 0 | some c ↦ c.credit_hours ]

unfoldable pub total_core_credits :
    List Course → List CurriculumCourse → (curriculum_version_id : ℕ) → ℕ
total_core_credits courses entries curriculum_version_id =
    sum_by (λ e. credit_hours_of courses e.course)
      (keep (λ e. (e.curriculum_version == curriculum_version_id) && e.is_core) entries)

-- `max(0, required - total)`
unfoldable pub credit_shortfall :
    List Course → List CurriculumCourse → Programme → (curriculum_version_id : ℕ) → ℕ
credit_shortfall courses entries programme curriculum_version_id =
    programme.total_credits_required - total_core_credits courses entries curriculum_version_id

-- the years 1 to a last one
abbrev pub years_to : ℕ → List ℕ
years_to zero = []
years_to (suc n) = years_to n ++ suc n ∷ []

-- the texts of `problems` as data
pub data Problem : Type 0 where
  short_by : (core_credits required shortfall : ℕ) → Problem
  no_courses : Problem
  no_courses_for : (years : List ℕ) → Problem

pub record Health : Type 0 where
  pub course_count : ℕ
  pub core_credits : ℕ
  pub required_credits : ℕ
  pub problems : List Problem
  pub healthy : Bool

-- the three checks
abbrev pub shortfall_problem : (core_credits required shortfall : ℕ) → List Problem
shortfall_problem core_credits required shortfall =
    if ltb 0 shortfall then short_by core_credits required shortfall ∷ [] else []

abbrev pub empty_problem : List CurriculumCourse → List Problem
empty_problem [] = no_courses ∷ []
empty_problem (_ ∷ _) = []

unfoldable pub missing_years : (duration : ℕ) → List CurriculumCourse → List ℕ
missing_years duration entries =
    keep (λ y. not (any (λ e. e.year_of_study == y) entries)) (years_to duration)

abbrev pub years_problem : List ℕ → List Problem
years_problem [] = []
years_problem (y ∷ ys) = no_courses_for (y ∷ ys) ∷ []

abbrev pub no_problem : List Problem → Bool
no_problem [] = true
no_problem (_ ∷ _) = false

unfoldable pub curriculum_health :
    List Course → List CurriculumCourse → Programme → (curriculum_version_id : ℕ) → Health
curriculum_health courses all_entries programme curriculum_version_id =
    let entries = courses_for all_entries curriculum_version_id none none false in
    let core = total_core_credits courses all_entries curriculum_version_id in
    let shortfall = credit_shortfall courses all_entries programme curriculum_version_id in
    let problems =
      shortfall_problem core programme.total_credits_required shortfall
      ++ (empty_problem entries
          ++ years_problem (missing_years programme.duration_years entries)) in
    record {
      course_count = length entries;
      core_credits = core;
      required_credits = programme.total_credits_required;
      problems = problems;
      healthy = no_problem problems;
    }
