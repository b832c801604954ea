-- ===== src/Timetabling/Exams.antt =====
-- The timetable of exams.
pub mod Bookings
use uni_acmis.Prelude.{
  ℕ, Option, none, some, or_else, Bool, true, false, ◌&&◌, ◌||◌, not, List, [], ◌∷◌, map, any, keep,
  count_if, find_first, next_key, update_row, ltb, leb, ◌==◌, if◌then◌else◌, Result, ok, err, ◌>>=◌,
  ◌>>◌, raise_if, sorted_by,
}
use uni_acmis.Academics.Calendar.{Semester, get_semester}
use uni_acmis.Timetabling.{
  TimetableError, room_clash, invigilator_clash, invalid_time_range, outside_exam_window,
  semester_not_found, validation_error, overlap, names_row, is_excluded,
}

pub record ExamTimetable : Type 0 where
  pub id : ℕ
  pub course : ℕ
  pub semester : ℕ
  pub room : Option ℕ
  pub invigilators : List ℕ
  pub exam_date : ℕ
  pub start_time : ℕ
  pub end_time : ℕ
  pub is_published : Bool
  pub published_at : Option ℕ
  pub published_by : Option ℕ

abbrev pub exam_id : ExamTimetable → ℕ
exam_id e = e.id

-- a time of a day that is asked for
pub record Sitting : Type 0 where
  pub exam_date : ℕ
  pub start_time : ℕ
  pub end_time : ℕ

unfoldable pub takes : Sitting → ExamTimetable → Bool
unfolding overlap
takes s e = (e.exam_date == s.exam_date) && overlap s.start_time s.end_time e.start_time e.end_time

unfoldable pub exam_room_busy :
    List ExamTimetable → Option ℕ → Sitting → (exclude_pk : Option ℕ) → Bool
exam_room_busy exams none s exclude_pk = false
exam_room_busy exams (some room) s exclude_pk =
    any (λ e. names_row room e.room && (not (is_excluded exclude_pk e.id) && takes s e)) exams

-- `invigilators__id__in=invigilator_ids`
abbrev pub has_any : (invigilator_ids : List ℕ) → List ℕ → Bool
has_any invigilator_ids invigilators = any (λ k. any (λ i. i == k) invigilators) invigilator_ids

unfoldable pub invigilators_busy :
    List ExamTimetable → List ℕ → Sitting → (exclude_pk : Option ℕ) → Bool
invigilators_busy exams [] s exclude_pk = false
invigilators_busy exams (k ∷ ks) s exclude_pk =
    any (λ e. has_any (k ∷ ks) e.invigilators && (not (is_excluded exclude_pk e.id) && takes s e))
      exams

unfoldable pub find_semester : List Semester → ℕ → Result TimetableError Semester
find_semester semesters semester_id = elim (get_semester semesters semester_id) [
  | ok s ↦ ok s
  | err _ ↦ err semester_not_found
]

-- `start and end and not (start <= day <= end)`
unfoldable pub is_outside : (exam_start exam_end : Option ℕ) → ℕ → Bool
is_outside none o day = false
is_outside (some a) none day = false
is_outside (some a) (some b) day = not (leb a day && leb day b)

-- `full_clean`: one exam of a course in a semester
unfoldable pub clean_exam : List ExamTimetable → ExamTimetable → Result TimetableError (Unit {0})
clean_exam exams e =
    raise_if
      (any (λ x. (x.course == e.course) && ((x.semester == e.semester) && not (x.id == e.id)))
        exams)
      validation_error

abbrev pub sitting_of : ExamTimetable → Sitting
sitting_of e = record { exam_date = e.exam_date; start_time = e.start_time; end_time = e.end_time }

-- `invigilator_ids` is the list given, or an empty one
unfoldable pub create_exam_entry :
    List Semester
    → List ExamTimetable
    → (course_id semester_id exam_date start_time end_time : ℕ) → (room_id : Option ℕ)
    → (invigilator_ids : List ℕ) → Result TimetableError (List ExamTimetable × ExamTimetable)
create_exam_entry semesters exams course_id semester_id exam_date start_time end_time room_id
      invigilator_ids =
    do
      semester ← find_semester semesters semester_id
      let e : ExamTimetable = record {
        id = next_key exam_id exams;
        course = course_id;
        semester = semester_id;
        room = room_id;
        invigilators = invigilator_ids;
        exam_date = exam_date;
        start_time = start_time;
        end_time = end_time;
        is_published = false;
        published_at = none;
        published_by = none;
      }
      raise_if (not (ltb start_time end_time)) invalid_time_range
      raise_if (is_outside semester.exam_start semester.exam_end exam_date) outside_exam_window
      raise_if (exam_room_busy exams room_id (sitting_of e) none) room_clash
      raise_if (invigilators_busy exams invigilator_ids (sitting_of e) none) invigilator_clash
      clean_exam exams e
      ok (e ∷ exams, e)

-- the arguments of `update_exam_entry`; what is left out stays
pub record ExamChange : Type 0 where
  pub exam_date : Option ℕ
  pub start_time : Option ℕ
  pub end_time : Option ℕ
  pub room_id : Option (Option ℕ)
  pub invigilator_ids : Option (List ℕ)

abbrev pub changed_exam : ExamTimetable → ExamChange → ExamTimetable
changed_exam e c = record e {
  exam_date = or_else c.exam_date e.exam_date;
  start_time = or_else c.start_time e.start_time;
  end_time = or_else c.end_time e.end_time;
  room = or_else c.room_id e.room;
  invigilators = or_else c.invigilator_ids e.invigilators;
}

-- `invigilator_ids is not None and _invigilators_busy(...)`
unfoldable pub given_busy :
    List ExamTimetable → Option (List ℕ) → Sitting → (exclude_pk : Option ℕ) → Bool
given_busy exams none s exclude_pk = false
given_busy exams (some ids) s exclude_pk = invigilators_busy exams ids s exclude_pk

unfoldable pub update_exam_entry :
    List Semester
    → List ExamTimetable
    → ExamTimetable
    → ExamChange
    → Result TimetableError (List ExamTimetable × ExamTimetable)
update_exam_entry semesters exams entry change = do
  let e : ExamTimetable = changed_exam entry change
  semester ← find_semester semesters entry.semester
  raise_if (not (ltb e.start_time e.end_time)) invalid_time_range
  raise_if (is_outside semester.exam_start semester.exam_end e.exam_date) outside_exam_window
  raise_if (exam_room_busy exams e.room (sitting_of e) (some e.id)) room_clash
  raise_if (given_busy exams change.invigilator_ids (sitting_of e) (some e.id)) invigilator_clash
  clean_exam exams e
  ok (update_row exam_id e exams, e)

abbrev pub is_to_publish : (semester_id : ℕ) → ExamTimetable → Bool
is_to_publish semester_id e = (e.semester == semester_id) && not e.is_published

-- what the loop of `publish_exam_timetable` leaves of an exam
abbrev pub publish_exam : (now semester_id : ℕ) → (actor : Option ℕ) → ExamTimetable → ExamTimetable
publish_exam now semester_id actor e =
    if is_to_publish semester_id e
    then record e { is_published = true; published_at = some now; published_by = actor }
    else e

unfoldable pub publish_exam_timetable :
    (now : ℕ) → List ExamTimetable → (semester_id : ℕ) → (actor : Option ℕ) → List ExamTimetable × ℕ
publish_exam_timetable now exams semester_id actor =
    (map (publish_exam now semester_id actor) exams, count_if (is_to_publish semester_id) exams)

-- `order_by("exam_date", "start_time")`
unfoldable pub earlier : ExamTimetable → ExamTimetable → Bool
earlier a b =
    ltb a.exam_date b.exam_date || ((a.exam_date == b.exam_date) && leb a.start_time b.start_time)

abbrev pub of_course : Option ℕ → ExamTimetable → Bool
of_course none e = true
of_course (some k) e = e.course == k

unfoldable pub exam_schedule :
    List ExamTimetable
    → (semester_id : ℕ) → (course_id : Option ℕ) → (published_only : Bool) → List ExamTimetable
exam_schedule exams semester_id course_id published_only = sorted_by earlier (
    keep
      (λ e.
        (e.semester == semester_id)
        && (not published_only || e.is_published)
        && of_course course_id e)
      exams)

unfoldable pub exam_entry_for :
    List ExamTimetable → (course_id semester_id : ℕ) → Option ExamTimetable
exam_entry_for exams course_id semester_id =
    find_first (λ e. (e.course == course_id) && (e.semester == semester_id)) exams
