-- ===== src/Registry.antt =====
-- Student records and what makes one clean: backend/apps/registry/models.py. Dates are numbers.
pub mod Trail
pub mod Moves
pub mod Lookups
pub mod Import
pub mod Status
pub mod Creation
use text.Mathlib.Text.{◌==◌ as str_eq}
use uni_acmis.Prelude.{
  ℕ, ◌+◌, String, Option, none, some, or_else, is_none, Bool, true, false, ◌&&◌, ◌||◌, not, List,
  [], ◌∷◌, any, next_key, update_row, get, ltb, ◌==◌, if◌then◌else◌, is_blank, text_length, strip,
  before_mark, concat_text, find_first, Result, ok, err, ◌>>=◌, ◌>>◌, raise_if,
}
use uni_acmis.Core.Sequences.{IdSequence, allocate}
use uni_acmis.Curriculum.{Programme}
use uni_acmis.Curriculum.Structure.{
  IdTokens, CurriculumVersion, Faculty, Department, id_tokens_for_programme,
}

pub data StudentStatus : Type 0 where
  active suspended deferred withdrawn graduated expelled : StudentStatus

pub data SponsorshipType : Type 0 where
  self government scholarship bursary employer ngo : SponsorshipType

pub record Student : Type 0 where
  pub id : ℕ
  pub student_id : String
  pub user : Option ℕ
  pub programme : ℕ
  pub curriculum_version : Option ℕ
  pub entry_academic_year : ℕ
  pub current_level : ℕ
  pub status : StudentStatus
  pub sponsorship_type : SponsorshipType
  pub sponsor : Option ℕ
  pub first_name : String
  pub middle_name : String
  pub last_name : String
  pub gender : String
  pub nationality : String
  pub state_of_origin : String
  pub has_disability : Bool
  pub disability_details : String
  pub phone : String
  pub email : String
  pub admitted_on : Option ℕ
  pub graduated_on : Option ℕ

pub record StudentStatusHistory : Type 0 where
  pub student : ℕ
  pub from_status : Option StudentStatus
  pub to_status : StudentStatus
  pub reason : String
  pub effective_date : ℕ
  pub changed_by : Option ℕ
  pub reference : String

pub data RegistryError : Type 0 where
  invalid_status_transition id_template_error validation_error : RegistryError
  academic_year_not_found programme_not_found : RegistryError

-- the tables that the registry writes; the latest entry of the trail stands first
pub record Registry : Type 0 where
  pub students : List Student
  pub history : List StudentStatusHistory
  pub sequences : List IdSequence

-- what it reads of other modules: the names of academic years and the structure of programmes. The
-- template of student identifiers as `str.format` fills it, which may fail, and the check of an address
-- by Django are parameters.
pub record Reference : Type 0 where
  pub year_names : List (ℕ × String)
  pub faculties : List Faculty
  pub departments : List Department
  pub programmes : List Programme
  pub versions : List CurriculumVersion
  pub render : IdTokens → (year : String) → (seq : ℕ) → Option String
  pub is_email : String → Bool

abbrev pub student_key : Student → ℕ
student_key s = s.id

abbrev pub is_active : StudentStatus → Bool
is_active active = true
is_active suspended = false
is_active deferred = false
is_active withdrawn = false
is_active graduated = false
is_active expelled = false

abbrev pub is_graduated_status : StudentStatus → Bool
is_graduated_status active = false
is_graduated_status suspended = false
is_graduated_status deferred = false
is_graduated_status withdrawn = false
is_graduated_status graduated = true
is_graduated_status expelled = false

abbrev pub is_self : SponsorshipType → Bool
is_self self = true
is_self government = false
is_self scholarship = false
is_self bursary = false
is_self employer = false
is_self ngo = false

abbrev pub same_user : Option ℕ → Option ℕ → Bool
same_user none o = false
same_user (some k) none = false
same_user (some k) (some j) = k == j

abbrev pub fits_column : String → ℕ → Bool
fits_column s limit = not (text_length s == 0) && not (ltb limit (text_length s))

-- whether a curriculum version belongs to a programme, where one is given
unfoldable pub version_belongs : List CurriculumVersion → Option ℕ → (programme : ℕ) → Bool
version_belongs versions none programme = true
version_belongs versions (some k) programme = elim (get (λ v. v.id) k versions) [
  | none ↦ false
  | some v ↦ v.programme == programme
]

-- whether a text is one of the choices of a column
abbrev pub is_choice : String → List String → Bool
is_choice s choices = any (λ c. str_eq c s) choices

abbrev pub genders : List String
genders = "female" ∷ "male" ∷ "other" ∷ "undisclosed" ∷ []

abbrev pub south_sudan_states : List String
south_sudan_states =
    "central_equatoria" ∷ "eastern_equatoria" ∷ "western_equatoria" ∷ "jonglei" ∷ "unity"
    ∷ "upper_nile" ∷ "warrap" ∷ "northern_bahr_el_ghazal" ∷ "western_bahr_el_ghazal" ∷ "lakes"
    ∷ "abyei" ∷ "greater_pibor" ∷ "ruweng" ∷ "outside" ∷ []

-- `text == ""`
abbrev pub is_empty : String → Bool
is_empty s = text_length s == 0

-- the column of the identifier, and its unique value
unfoldable pub is_clean_id : List Student → Student → Bool
is_clean_id students s =
    fits_column s.student_id 50
    && not (any (λ t. str_eq t.student_id s.student_id && not (t.id == s.id)) students)

-- the other columns of `Student.full_clean`
unfoldable pub are_clean_columns : Reference → List Student → Student → Bool
are_clean_columns reference students s =
    fits_column s.first_name 100
    && fits_column s.last_name 100
    && fits_column s.nationality 100
    && not (ltb 100 (text_length s.middle_name))
    && not (ltb 32 (text_length s.phone))
    && is_choice s.gender genders
    && (is_empty s.state_of_origin || is_choice s.state_of_origin south_sudan_states)
    && (is_empty s.email || reference.is_email s.email)
    && not (any (λ t. same_user t.user s.user && not (t.id == s.id)) students)

-- `Student.clean`
unfoldable pub passes_clean : Reference → Student → Bool
passes_clean reference s =
    not (s.has_disability && is_blank s.disability_details)
    && not (not (is_self s.sponsorship_type) && is_none s.sponsor)
    && version_belongs reference.versions s.curriculum_version s.programme
    && not (is_graduated_status s.status && is_none s.graduated_on)

unfoldable pub is_clean_student : Reference → List Student → Student → Bool
is_clean_student reference students s =
    is_clean_id students s && are_clean_columns reference students s && passes_clean reference s
