-- ===== src/Timetabling/Classes.antt =====
-- The weekly timetable of classes.
pub mod Clashes
use uni_acmis.Prelude.{
  ℕ, Option, none, some, or_else, Bool, true, false, ◌&&◌, ◌||◌, not, List, [], ◌∷◌, map, any, keep,
  count_if, get, next_key, update_row, ltb, leb, ◌==◌, if◌then◌else◌, Result, ok, err, ◌>>=◌, ◌>>◌,
  raise_if, sorted_by,
}
use uni_acmis.Timetabling.{
  TimetableError, room_clash, lecturer_clash, invalid_time_range, entry_not_found, validation_error,
  overlap, names_row, is_excluded,
}

pub record TimetableEntry : Type 0 where
  pub id : ℕ
  pub course : ℕ
  pub semester : ℕ
  pub room : Option ℕ
  pub lecturer : Option ℕ
  pub day_of_week : ℕ
  pub start_time : ℕ
  pub end_time : ℕ
  pub is_published : Bool
  pub published_at : Option ℕ
  pub published_by : Option ℕ

abbrev pub entry_id : TimetableEntry → ℕ
entry_id e = e.id

-- a slot of the week that is asked for
pub record Slot : Type 0 where
  pub semester : ℕ
  pub day_of_week : ℕ
  pub start_time : ℕ
  pub end_time : ℕ

-- whether an entry takes a part of a slot
unfoldable pub takes : Slot → TimetableEntry → Bool
unfolding overlap
takes s e =
    (e.semester == s.semester)
    && (e.day_of_week == s.day_of_week)
    && overlap s.start_time s.end_time e.start_time e.end_time

unfoldable pub room_busy : List TimetableEntry → Option ℕ → Slot → (exclude_pk : Option ℕ) → Bool
room_busy entries none s exclude_pk = false
room_busy entries (some room) s exclude_pk =
    any (λ e. names_row room e.room && (not (is_excluded exclude_pk e.id) && takes s e)) entries

unfoldable pub lecturer_busy :
    List TimetableEntry → Option ℕ → Slot → (exclude_pk : Option ℕ) → Bool
lecturer_busy entries none s exclude_pk = false
lecturer_busy entries (some lecturer) s exclude_pk =
    any (λ e. names_row lecturer e.lecturer && (not (is_excluded exclude_pk e.id) && takes s e))
      entries

-- the guards that creation and update share
unfoldable pub check_slot :
    List TimetableEntry
    → (room lecturer : Option ℕ) → Slot
    → (exclude_pk : Option ℕ) → Result TimetableError (Unit {0})
check_slot entries room lecturer s exclude_pk = do
  raise_if (not (ltb s.start_time s.end_time)) invalid_time_range
  raise_if (room_busy entries room s exclude_pk) room_clash
  raise_if (lecturer_busy entries lecturer s exclude_pk) lecturer_clash

-- `full_clean`: the days are 0 to 6
abbrev pub clean_day : ℕ → Result TimetableError (Unit {0})
clean_day day = raise_if (ltb 6 day) validation_error

unfoldable pub create_entry :
    List TimetableEntry
    → (course_id semester_id day_of_week start_time end_time : ℕ) → (room_id lecturer_id : Option ℕ)
    → Result TimetableError (List TimetableEntry × TimetableEntry)
create_entry entries course_id semester_id day_of_week start_time end_time room_id lecturer_id = do
  let s : Slot = record {
    semester = semester_id;
    day_of_week = day_of_week;
    start_time = start_time;
    end_time = end_time;
  }
  check_slot entries room_id lecturer_id s none
  clean_day day_of_week
  let e : TimetableEntry = record {
    id = next_key entry_id entries;
    course = course_id;
    semester = semester_id;
    room = room_id;
    lecturer = lecturer_id;
    day_of_week = day_of_week;
    start_time = start_time;
    end_time = end_time;
    is_published = false;
    published_at = none;
    published_by = none;
  }
  ok (e ∷ entries, e)

-- the arguments of `update_entry`; a room or lecturer that is left out stays
pub record EntryChange : Type 0 where
  pub day_of_week : Option ℕ
  pub start_time : Option ℕ
  pub end_time : Option ℕ
  pub room_id : Option (Option ℕ)
  pub lecturer_id : Option (Option ℕ)

-- an entry with a change made to it
abbrev pub changed_entry : TimetableEntry → EntryChange → TimetableEntry
changed_entry e c = record e {
  day_of_week = or_else c.day_of_week e.day_of_week;
  start_time = or_else c.start_time e.start_time;
  end_time = or_else c.end_time e.end_time;
  room = or_else c.room_id e.room;
  lecturer = or_else c.lecturer_id e.lecturer;
}

abbrev pub slot_of : TimetableEntry → Slot
slot_of e = record {
  semester = e.semester;
  day_of_week = e.day_of_week;
  start_time = e.start_time;
  end_time = e.end_time;
}

unfoldable pub update_entry :
    List TimetableEntry
    → TimetableEntry
    → EntryChange
    → Result TimetableError (List TimetableEntry × TimetableEntry)
update_entry entries entry change = do
  let e : TimetableEntry = changed_entry entry change
  check_slot entries e.room e.lecturer (slot_of e) (some e.id)
  clean_day e.day_of_week
  ok (update_row entry_id e entries, e)

abbrev pub is_to_publish : (semester_id : ℕ) → TimetableEntry → Bool
is_to_publish semester_id e = (e.semester == semester_id) && not e.is_published

-- what the loop of `publish_timetable` leaves of an entry
abbrev pub publish_entry :
    (now semester_id : ℕ) → (actor : Option ℕ) → TimetableEntry → TimetableEntry
publish_entry now semester_id actor e =
    if is_to_publish semester_id e
    then record e { is_published = true; published_at = some now; published_by = actor }
    else e

-- the entries that are left, and how many were published
unfoldable pub publish_timetable :
    (now : ℕ)
    → List TimetableEntry
    → (semester_id : ℕ) → (actor : Option ℕ) → List TimetableEntry × ℕ
publish_timetable now entries semester_id actor = (
  map (publish_entry now semester_id actor) entries,
  count_if (is_to_publish semester_id) entries,
)

-- the course and the semester of an entry
unfoldable pub entry_context : List TimetableEntry → ℕ → Result TimetableError (ℕ × ℕ)
entry_context entries timetable_entry_id = elim (get entry_id timetable_entry_id entries) [
  | some e ↦ ok (e.course, e.semester)
  | none ↦ err entry_not_found
]

-- a filter that is left out keeps all
abbrev pub passes : (filter : Option ℕ) → Option ℕ → Bool
passes none v = true
passes (some k) v = names_row k v

-- `order_by("day_of_week", "start_time")`
unfoldable pub earlier : TimetableEntry → TimetableEntry → Bool
earlier a b =
    ltb a.day_of_week b.day_of_week
    || ((a.day_of_week == b.day_of_week) && leb a.start_time b.start_time)

unfoldable pub weekly_timetable :
    List TimetableEntry
    → (semester_id : ℕ) → (course_id lecturer_id room_id : Option ℕ) → (published_only : Bool)
    → List TimetableEntry
weekly_timetable entries semester_id course_id lecturer_id room_id published_only =
    sorted_by earlier (
      keep
        (λ e.
          (e.semester == semester_id)
          && (not published_only || e.is_published)
          && passes course_id (some e.course)
          && passes lecturer_id e.lecturer
          && passes room_id e.room)
        entries)
