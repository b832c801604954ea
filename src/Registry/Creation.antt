-- ===== src/Registry/Creation.antt =====
-- The creation of a student record with its identifier: `create_student`, and id_generation.py of
-- backend/apps/registry.
use uni_acmis.Prelude.{
  ℕ, String, Option, none, some, or_else, Bool, not, List, [], ◌∷◌, next_key, ◌==◌, if◌then◌else◌,
  text_length, strip, before_mark, concat_text, find_first, Result, ok, err, ◌>>=◌, ◌>>◌, raise_if,
}
use uni_acmis.Core.Sequences.{IdSequence, allocate}
use uni_acmis.Curriculum.Structure.{IdTokens, id_tokens_for_programme}
use uni_acmis.Registry.{
  active, self, Student, StudentStatusHistory, RegistryError, id_template_error, validation_error,
  academic_year_not_found, programme_not_found, Registry, Reference, student_key, is_clean_student,
}

unfoldable pub academic_year_name : List (ℕ × String) → ℕ → Result RegistryError String
academic_year_name year_names k = elim (find_first (λ y. y.0 == k) year_names) [
  | some y ↦ ok y.1
  | none ↦ err academic_year_not_found
]

unfoldable pub sequence_scope : (faculty_code programme_code entry_year : String) → String
sequence_scope faculty_code programme_code entry_year =
    concat_text ("student_id:" ∷ faculty_code ∷ ":" ∷ programme_code ∷ ":" ∷ entry_year ∷ [])

-- `entry_year_name.split("/")[0].strip()`
unfoldable pub leading_year : String → String
leading_year name = strip (before_mark b'/' name)

abbrev pub or_raise : {A : Type 0} → Option A → RegistryError → Result RegistryError A
or_raise none e = err e
or_raise (some a) e = ok a

abbrev pub tokens_for : Reference → ℕ → Option IdTokens
tokens_for reference programme_id =
    id_tokens_for_programme reference.faculties reference.departments reference.programmes
      programme_id

unfoldable pub generate_student_id :
    Reference
    → List IdSequence
    → (programme_id : ℕ) → (entry_year_name : String)
    → Result RegistryError (List IdSequence × String)
generate_student_id reference sequences programme_id entry_year_name = do
  tokens ← or_raise (tokens_for reference programme_id) programme_not_found
  let year = leading_year entry_year_name
  let next = allocate sequences (sequence_scope tokens.faculty tokens.programme year)
  text ← or_raise (reference.render tokens year next.1) id_template_error
  ok (next.0, text)

-- the arguments of `create_student` that describe the student; those that are left out have the
-- defaults of the model
pub record NewStudent : Type 0 where
  pub programme_id : ℕ
  pub entry_academic_year_id : ℕ
  pub first_name : String
  pub last_name : String
  pub gender : String
  pub student_id : String
  pub user : Option ℕ
  pub curriculum_version : Option ℕ
  pub middle_name : String
  pub nationality : Option String
  pub state_of_origin : String
  pub has_disability : Bool
  pub disability_details : String
  pub phone : String
  pub email : String
  pub admitted_on : Option ℕ

-- the identifier that was supplied, or a new one
unfoldable pub identifier_for :
    Reference → List IdSequence → NewStudent → Result RegistryError (List IdSequence × String)
identifier_for reference sequences n =
    if text_length n.student_id == 0
    then (do
      year_name ← academic_year_name reference.year_names n.entry_academic_year_id
      generate_student_id reference sequences n.programme_id year_name)
    else ok (sequences, n.student_id)

abbrev pub student_of : (today id : ℕ) → (student_id : String) → NewStudent → Student
student_of today id student_id n = record {
  id = id;
  student_id = student_id;
  user = n.user;
  programme = n.programme_id;
  curriculum_version = n.curriculum_version;
  entry_academic_year = n.entry_academic_year_id;
  current_level = 1;
  status = active;
  sponsorship_type = self;
  sponsor = none;
  first_name = strip n.first_name;
  middle_name = n.middle_name;
  last_name = strip n.last_name;
  gender = n.gender;
  nationality = or_else n.nationality "South Sudanese";
  state_of_origin = n.state_of_origin;
  has_disability = n.has_disability;
  disability_details = n.disability_details;
  phone = n.phone;
  email = n.email;
  admitted_on = some (or_else n.admitted_on today);
  graduated_on = none;
}

-- `text or default`
abbrev pub text_or : String → String → String
text_or s default = if text_length s == 0 then default else s

abbrev pub first_entry : Student → (reason : String) → (today : ℕ) → Option ℕ → StudentStatusHistory
first_entry s reason today actor = record {
  student = s.id;
  from_status = none;
  to_status = s.status;
  reason = text_or reason "Initial enrollment";
  effective_date = or_else s.admitted_on today;
  changed_by = actor;
  reference = "";
}

unfoldable pub create_student :
    Reference
    → (today : ℕ) → Registry
    → NewStudent
    → (actor : Option ℕ) → (reason : String) → Result RegistryError (Registry × Student)
create_student reference today r n actor reason = do
  identified ← identifier_for reference r.sequences n
  let s = student_of today (next_key student_key r.students) identified.1 n
  raise_if (not (is_clean_student reference r.students s)) validation_error
  let registry : Registry = record {
    students = s ∷ r.students;
    history = first_entry s reason today actor ∷ r.history;
    sequences = identified.0;
  }
  ok (registry, s)
