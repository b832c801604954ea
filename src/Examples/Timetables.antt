-- ===== src/Examples/Timetables.antt =====
-- Runs of the timetables.
use uni_acmis.Prelude.{
  next, done, ◌<◌, ◌≤◌, ◌≡◌, refl, none, some, true, false, ◌&&◌, ◌||◌, [], ◌∷◌, arith, ◌==◌, ok,
}
use uni_acmis.Academics.Calendar.{Semester, get_semester}
use uni_acmis.Timetabling.{overlap}
use uni_acmis.Timetabling.Classes as Classes
use uni_acmis.Timetabling.Classes.{
  TimetableEntry, create_entry, check_slot, room_busy, lecturer_busy,
}
use uni_acmis.Timetabling.Classes.Clashes as Clashes
use uni_acmis.Timetabling.Classes.Clashes.{share, classes-NoDoubleBooking}
use uni_acmis.Timetabling.Exams.{
  ExamTimetable, create_exam_entry, find_semester, is_outside, exam_room_busy, invigilators_busy,
  clean_exam, takes,
}
use uni_acmis.Timetabling.Exams.Bookings as Bookings
use uni_acmis.Timetabling.Exams.Bookings.{exams-NoDoubleBooking}

abbrev lecture : TimetableEntry
lecture = record {
  id = 1;
  course = 7;
  semester = 2;
  room = some 3;
  lecturer = some 5;
  day_of_week = 1;
  start_time = 540;
  end_time = 600;
  is_published = false;
  published_at = none;
  published_by = none;
}

abbrev seminar : TimetableEntry
seminar = record lecture { id = 2; course = 8; start_time = 600; end_time = 660 }

lecture_made : create_entry [] 7 2 1 540 600 (some 3) (some 5) ≡ ok (lecture ∷ [], lecture)
unfolding create_entry check_slot room_busy lecturer_busy
lecture_made = refl

seminar_made :
    create_entry (lecture ∷ []) 8 2 1 600 660 (some 3) (some 5)
    ≡ ok (seminar ∷ lecture ∷ [], seminar)
unfolding create_entry check_slot room_busy lecturer_busy Classes.takes overlap
seminar_made = refl

classes-NoDoubleBooking_example :
    ((Clashes.together seminar lecture 600 && (share (some 3) (some 3) || share (some 5) (some 5)))
      ≡ false)
    × (600 < 660)
    × (1 ≤ 6)
classes-NoDoubleBooking_example =
    classes-NoDoubleBooking (seminar ∷ lecture ∷ []) 2 1 seminar lecture 600
      (next (Clashes.creates 7 2 1 540 600 (some 3) (some 5) lecture lecture_made)
        (next (Clashes.creates 8 2 1 600 660 (some 3) (some 5) seminar seminar_made) done))
      (omega arith) refl refl

abbrev term : Semester
term = record {
  id = 2;
  name = "First";
  exam_start = some 100;
  exam_end = some 120;
  registration_opens = none;
  registration_closes = none;
  add_drop_closes = none;
  is_current = true;
  academic_year = 1;
  teaching_end = 95;
}

abbrev algebra : ExamTimetable
algebra = record {
  id = 1;
  course = 7;
  semester = 2;
  room = some 3;
  invigilators = 5 ∷ [];
  exam_date = 110;
  start_time = 540;
  end_time = 720;
  is_published = false;
  published_at = none;
  published_by = none;
}

abbrev botany : ExamTimetable
botany = record algebra { id = 2; course = 8; room = none; exam_date = 111 }

algebra_made :
    create_exam_entry (term ∷ []) [] 7 2 110 540 720 (some 3) (5 ∷ []) ≡ ok (algebra ∷ [], algebra)
unfolding create_exam_entry find_semester get_semester is_outside exam_room_busy invigilators_busy
    clean_exam
algebra_made = refl

botany_made :
    create_exam_entry (term ∷ []) (algebra ∷ []) 8 2 111 540 720 none (5 ∷ [])
    ≡ ok (botany ∷ algebra ∷ [], botany)
unfolding create_exam_entry find_semester get_semester is_outside exam_room_busy invigilators_busy
    clean_exam takes overlap
botany_made = refl

exams-NoDoubleBooking_example :
    ((Bookings.together botany algebra 600 && share none (some 3)) ≡ false)
    × (((8 == 7) && (2 == 2)) ≡ false)
    × (540 < 720)
    × ((s : Semester) × (get_semester (term ∷ []) 2 ≡ ok s)
        × Bookings.IsWithin s.exam_start s.exam_end 111)
exams-NoDoubleBooking_example =
    exams-NoDoubleBooking (term ∷ []) (botany ∷ algebra ∷ []) 2 1 botany algebra 600
      (next (Bookings.creates 7 2 110 540 720 (some 3) (5 ∷ []) algebra algebra_made)
        (next (Bookings.creates 8 2 111 540 720 none (5 ∷ []) botany botany_made) done))
      (omega arith) refl refl
