-- ===== src/Registry/Import.antt =====
-- The bulk import of legacy student records.
pub mod AllOrNothing
use Prim.Native.Char.{code}
use text.Mathlib.Text.{◌==◌ as str_eq}
use uni_acmis.Prelude.{
  ℕ, zero, suc, ◌+◌, String, Option, none, some, or_else, is_none, Bool, true, false, ◌&&◌, ◌||◌,
  not, List, [], ◌∷◌, ◌++◌, length, keep, find_first, next_key, ltb, leb, ◌==◌, if◌then◌else◌,
  strip, text_length, Result, ok, err, ◌>>=◌, ◌>>◌, raise_if,
}
use uni_acmis.Curriculum.{Programme}
use uni_acmis.Curriculum.Structure.{key_of, programme_id_for_code, curriculum_version_id_for}
use uni_acmis.Registry.{
  Student, Registry, Reference, RegistryError, student_key, is_clean_id, are_clean_columns,
  passes_clean, is_empty,
}
use uni_acmis.Registry.Creation.{NewStudent, student_of, create_student, text_or}

-- a row of the spreadsheet: the columns that it has
pub record ImportRow : Type 0 where
  pub first_name : Option String
  pub last_name : Option String
  pub gender : Option String
  pub programme_code : Option String
  pub entry_academic_year : Option String
  pub curriculum_version : Option String
  pub student_id : Option String
  pub middle_name : Option String
  pub state_of_origin : Option String
  pub nationality : Option String
  pub phone : Option String
  pub email : Option String
  pub disability_details : Option String
  pub has_disability : Option String

-- what the message of a rejected field says
pub data Problem : Type 0 where
  required : (field : String) → Problem
  no_programme no_academic_year no_curriculum_version not_valid : Problem
  duplicate_of : (row : ℕ) → Problem

-- `(row.get(field) or "").strip()`
abbrev pub cell : Option String → String
cell o = strip (or_else o "")

-- a required field that is empty
abbrev pub check_required : (field : String) → Option String → List Problem
check_required field o = if is_empty (cell o) then required field ∷ [] else []

-- `academic_year_id_for_name`
unfoldable pub academic_year_id_for_name : List (ℕ × String) → (name : String) → Option ℕ
academic_year_id_for_name year_names name =
    key_of (λ y. y.0) (find_first (λ y. str_eq y.1 name) year_names)

-- a lookup that an empty text does not make
abbrev pub unless_empty : String → Option ℕ → Option ℕ
unless_empty s o = if is_empty s then none else o

unfoldable pub programme_of : Reference → ImportRow → Option ℕ
programme_of reference row =
    unless_empty (cell row.programme_code)
      (programme_id_for_code reference.programmes (cell row.programme_code))

unfoldable pub year_of : Reference → ImportRow → Option ℕ
year_of reference row =
    unless_empty (cell row.entry_academic_year)
      (academic_year_id_for_name reference.year_names (cell row.entry_academic_year))

-- the version of a programme, if both are known
abbrev pub version_in : Reference → (programme_id : Option ℕ) → String → Option ℕ
version_in reference none version = none
version_in reference (some k) version = curriculum_version_id_for reference.versions k version

unfoldable pub version_of : Reference → ImportRow → Option ℕ
version_of reference row =
    unless_empty (cell row.curriculum_version)
      (version_in reference (programme_of reference row) (cell row.curriculum_version))

abbrev pub check_version : Reference → ImportRow → List Problem
check_version reference row =
    if not (is_empty (cell row.curriculum_version)) && is_none (version_of reference row)
    then no_curriculum_version ∷ []
    else []

abbrev pub if_missing : Option ℕ → Problem → List Problem
if_missing none p = p ∷ []
if_missing (some _) p = []

-- the first part of `_resolve_import_row`
unfoldable pub row_problems : Reference → ImportRow → List Problem
row_problems reference row =
    check_required "first_name" row.first_name
    ++ check_required "last_name" row.last_name
    ++ check_required "gender" row.gender
    ++ if_missing (programme_of reference row) no_programme
    ++ if_missing (year_of reference row) no_academic_year
    ++ check_version reference row

-- a letter in lower case
abbrev pub lower_code : ℕ → ℕ
lower_code c = if leb b'A' c && leb c b'Z' then c + 32 else c

-- `s.lower() == t`, for a text `t` of Latin letters in lower case or digits
unfoldable pub lower_equals : String → String → Bool
lower_equals String.[] String.[] = true
lower_equals String.[] (String.◌∷◌ d t) = false
lower_equals (String.◌∷◌ c s) String.[] = false
lower_equals (String.◌∷◌ c s) (String.◌∷◌ d t) = (lower_code (code c) == code d) && lower_equals s t

unfoldable pub says_yes : Option String → Bool
says_yes o =
    lower_equals (cell o) "1" || lower_equals (cell o) "true" || lower_equals (cell o) "yes"

-- a column that an empty text leaves to its default
abbrev pub optional_cell : Option String → Option String
optional_cell o = if is_empty (or_else o "") then none else some (cell o)

-- `kwargs`
abbrev pub new_student : Reference → ImportRow → NewStudent
new_student reference row = record {
  programme_id = or_else (programme_of reference row) 0;
  entry_academic_year_id = or_else (year_of reference row) 0;
  first_name = cell row.first_name;
  last_name = cell row.last_name;
  gender = cell row.gender;
  student_id = cell row.student_id;
  user = none;
  curriculum_version = version_of reference row;
  middle_name = cell row.middle_name;
  nationality = optional_cell row.nationality;
  state_of_origin = cell row.state_of_origin;
  has_disability = says_yes row.has_disability;
  disability_details = cell row.disability_details;
  phone = cell row.phone;
  email = cell row.email;
  admitted_on = none;
}

-- `candidate.full_clean(...)`, which leaves out an identifier that was not supplied
unfoldable pub candidate_is_clean : Reference → (today : ℕ) → List Student → NewStudent → Bool
candidate_is_clean reference today students n =
    let s = student_of today (next_key student_key students) (text_or n.student_id "PENDING") n in
    (is_empty n.student_id || is_clean_id students s)
    && are_clean_columns reference students s
    && passes_clean reference s

-- the candidate of a row without problems
abbrev pub check_candidate :
    Reference → (today : ℕ) → List Student → NewStudent → Result (List Problem) NewStudent
check_candidate reference today students n =
    if candidate_is_clean reference today students n then ok n else err (not_valid ∷ [])

abbrev pub resolve_unless :
    List Problem → Result (List Problem) NewStudent → Result (List Problem) NewStudent
resolve_unless [] r = r
resolve_unless (p ∷ ps) r = err (p ∷ ps)

unfoldable pub resolve_import_row :
    Reference → (today : ℕ) → List Student → ImportRow → Result (List Problem) NewStudent
resolve_import_row reference today students row =
    resolve_unless (row_problems reference row)
      (check_candidate reference today students (new_student reference row))

pub record RowErrors : Type 0 where
  pub row : ℕ
  pub errors : List Problem

-- what the first loop collects
pub record Sorted : Type 0 where
  pub resolved : List (ℕ × NewStudent)
  pub errors : List RowErrors

abbrev pub add_outcome : (index : ℕ) → Result (List Problem) NewStudent → Sorted → Sorted
add_outcome index (ok n) s = record s { resolved = (index, n) ∷ s.resolved }
add_outcome index (err ps) s = record s { errors = record { row = index; errors = ps } ∷ s.errors }

unfoldable pub resolve_rows :
    Reference → (today : ℕ) → List Student → (index : ℕ) → List ImportRow → Sorted
resolve_rows reference today students index [] = record { resolved = []; errors = [] }
resolve_rows reference today students index (row ∷ rows) =
    add_outcome index (resolve_import_row reference today students row)
      (resolve_rows reference today students (index + 1) rows)

-- `seen_student_ids`
abbrev pub Seen : Type 0
Seen = List (String × ℕ)

unfoldable pub seen_at : String → Seen → Option ℕ
seen_at s [] = none
seen_at s ((t, i) ∷ seen) = let rest = seen_at s seen in if str_eq t s then some i else rest

-- an identifier that was looked up in the dictionary
abbrev pub note_id : Seen → (index : ℕ) → String → Option ℕ → Seen × List RowErrors
note_id seen index s none = ((s, index) ∷ seen, [])
note_id seen index s (some first) =
    (seen, record { row = index; errors = duplicate_of first ∷ [] } ∷ [])

-- the body of the second loop
unfoldable pub note_row : Seen → (index : ℕ) → NewStudent → Seen × List RowErrors
note_row seen index n =
    if is_empty n.student_id
    then (seen, [])
    else note_id seen index n.student_id (seen_at n.student_id seen)

-- the second loop: the dictionary that it leaves, and its errors
unfoldable pub find_duplicates : Seen → List (ℕ × NewStudent) → Seen × List RowErrors
find_duplicates seen [] = (seen, [])
find_duplicates seen ((index, n) ∷ resolved) =
    let noted = note_row seen index n in
    let rest = find_duplicates noted.0 resolved in (rest.0, noted.1 ++ rest.1)

abbrev pub is_index : ℕ → Option ℕ → Bool
is_index i none = false
is_index i (some j) = j == i

-- the condition of the list that `resolved` becomes
abbrev pub stands_first : Seen → ℕ × NewStudent → Bool
stands_first seen (index, n) = is_empty n.student_id || is_index index (seen_at n.student_id seen)

unfoldable pub create_all :
    Reference
    → (today : ℕ) → Registry
    → List (ℕ × NewStudent)
    → (actor : Option ℕ) → (reason : String) → Result RegistryError (Registry × ℕ)
create_all reference today r [] actor reason = ok (r, 0)
create_all reference today r ((index, n) ∷ resolved) actor reason = do
  created ← create_student reference today r n actor reason
  rest ← create_all reference today created.0 resolved actor reason
  ok (rest.0, rest.1 + 1)

pub record ImportReport : Type 0 where
  pub total : ℕ
  pub valid : ℕ
  pub created : ℕ
  pub errors : List RowErrors

abbrev pub no_errors : List RowErrors → Bool
no_errors [] = true
no_errors (_ ∷ _) = false

unfoldable pub import_students :
    Reference
    → (today : ℕ) → Registry
    → List ImportRow
    → (commit : Bool) → (actor : Option ℕ) → (reason : String)
    → Result RegistryError (Registry × ImportReport)
import_students reference today r rows commit actor reason =
    let sorted = resolve_rows reference today r.students 1 rows in
    let checked = find_duplicates [] sorted.resolved in
    let errors = sorted.errors ++ checked.1 in
    let resolved = keep (stands_first checked.0) sorted.resolved in
    if not (no_errors errors) || not commit
    then ok
        (r, record { total = length rows; valid = length resolved; created = 0; errors = errors })
    else (do
      made ← create_all reference today r resolved actor (text_or reason "Bulk legacy import")
      ok (
        made.0,
        record { total = length rows; valid = length resolved; created = made.1; errors = [] },
      ))
