-- ===== src/Timetabling.antt =====
-- The timetables of classes and of exams: backend/apps/timetabling/services.py, with
-- backend/apps/timetabling/models.py. Times of a day and dates are numbers.
pub mod Classes
pub mod Exams
use text.Mathlib.Text.{◌==◌ as str_eq}
use uni_acmis.Prelude.{
  ℕ, String, Option, none, some, or_else, Bool, true, false, ◌&&◌, ◌||◌, not, List, [], ◌∷◌, any,
  next_key, update_row, ltb, ◌==◌, text_length, Result, ok, err, ◌>>=◌, ◌>>◌, raise_if,
}

pub data TimetableError : Type 0 where
  room_clash lecturer_clash invigilator_clash invalid_time_range outside_exam_window :
      TimetableError
  semester_not_found entry_not_found validation_error : TimetableError

unfoldable pub overlap : (start_a end_a start_b end_b : ℕ) → Bool
overlap start_a end_a start_b end_b = ltb start_a end_b && ltb start_b end_a

pub record Room : Type 0 where
  pub id : ℕ
  pub code : String
  pub name : String
  pub building : String
  pub capacity : ℕ
  pub is_active : Bool

abbrev pub room_id : Room → ℕ
room_id r = r.id

-- whether a text is not empty and fits its column
abbrev pub fits_column : String → ℕ → Bool
fits_column s limit = not (text_length s == 0) && not (ltb limit (text_length s))

-- `Room.full_clean`: the lengths of the columns and the unique code
unfoldable pub is_clean_room : List Room → Room → Bool
is_clean_room rooms r =
    fits_column r.code 20
    && fits_column r.name 150
    && not (ltb 100 (text_length r.building))
    && not (any (λ q. str_eq q.code r.code && not (q.id == r.id)) rooms)

unfoldable pub create_room :
    List Room
    → (code name building : String) → (capacity : ℕ) → Result TimetableError (List Room × Room)
create_room rooms code name building capacity = do
  let r : Room = record {
    id = next_key room_id rooms;
    code = code;
    name = name;
    building = building;
    capacity = capacity;
    is_active = true;
  }
  raise_if (not (is_clean_room rooms r)) validation_error
  ok (r ∷ rooms, r)

unfoldable pub update_room :
    List Room
    → Room
    → (name building : Option String) → (capacity : Option ℕ) → (is_active : Option Bool)
    → Result TimetableError (List Room × Room)
update_room rooms room name building capacity is_active = do
  let r : Room = record room {
    name = or_else name room.name;
    building = or_else building room.building;
    capacity = or_else capacity room.capacity;
    is_active = or_else is_active room.is_active;
  }
  raise_if (not (is_clean_room rooms r)) validation_error
  ok (update_row room_id r rooms, r)

-- whether a foreign key that may be null names a row
abbrev pub names_row : ℕ → Option ℕ → Bool
names_row k none = false
names_row k (some j) = j == k

-- `exclude(pk=exclude_pk)`, where one is given
abbrev pub is_excluded : (exclude_pk : Option ℕ) → ℕ → Bool
is_excluded none k = false
is_excluded (some pk) k = k == pk
