-- ===== src/Examples/Registers.antt =====
-- Runs of the registers of classes.
use uni_acmis.Prelude.{
  none, ℕ, ◌≤◌, ◌<◌, ◌≡◌, ◌↔◌, refl, some, true, false, [], ◌∷◌, arith, any, All, count_if, ok,
  is_blank, text_length, ◌==◌,
}
use uni_acmis.Decimal.{multiply, quantize, round_context, half_up, half_even, scale_for}
use uni_acmis.Timetabling.Classes.{TimetableEntry, entry_context}
use uni_acmis.Enrollment.Lookups.{active_registration_ids}
use uni_acmis.Attendance.{
  SessionRecord, SessionMark, AttendanceWaiver, absent, late, context_of, save_mark, save_marks,
  record_session, same_session, percentage_of, attendance_summary, is_below_threshold,
  exam_eligibility, grant_waiver,
}
use uni_acmis.Attendance.Exams.{exam_eligibility-blocked_iff}
use uni_acmis.Attendance.Register.{OneRecord, AllValid, record_session-OneRecord}
use uni_acmis.Examples.Registrations.{made}

abbrev missed : SessionRecord
missed = record {
  id = 1;
  timetable_entry = 4;
  registration = 2;
  session_date = 60;
  status = absent;
  notes = "";
  recorded_by = some 1;
}

abbrev came_late : SessionRecord
came_late = record {
  id = 1;
  timetable_entry = 4;
  registration = 2;
  session_date = 60;
  status = late;
  notes = "bus";
  recorded_by = some 1;
}

abbrev lecture : TimetableEntry
lecture = record {
  id = 4;
  course = 7;
  semester = 2;
  room = none;
  lecturer = none;
  day_of_week = 1;
  start_time = 540;
  end_time = 600;
  is_published = true;
  published_at = none;
  published_by = none;
}

abbrev correction : SessionMark
correction = record { registration_id = 2; status = some late; notes = some "bus" }

missed-OneRecord : OneRecord (missed ∷ [])
missed-OneRecord = ((λ k. ground arith), (λ e d g. ground arith))

corrected :
    record_session (lecture ∷ []) (made ∷ []) (missed ∷ []) 4 60 (correction ∷ []) (some 1)
    ≡ ok (came_late ∷ [], came_late ∷ [])
unfolding record_session save_marks save_mark context_of entry_context active_registration_ids
    text_length
corrected = refl

record_session-OneRecord_example :
    ((entry : ℕ × ℕ) × (entry_context (lecture ∷ []) 4 ≡ ok entry)
      × AllValid (active_registration_ids (made ∷ []) entry.0 entry.1) (correction ∷ []))
    × OneRecord (came_late ∷ [])
    × ((e d g : ℕ)
        → count_if (same_session e d g) (missed ∷ [])
          ≤ count_if (same_session e d g) (came_late ∷ []))
    × All
        (λ m. count_if (same_session 4 60 m.registration_id) (came_late ∷ []) ≡ 1)
        (correction ∷ [])
record_session-OneRecord_example =
    record_session-OneRecord (lecture ∷ []) (made ∷ []) (missed ∷ []) (came_late ∷ [])
      (came_late ∷ []) 4 60 (correction ∷ []) (some 1) missed-OneRecord corrected

exam_eligibility-blocked_iff_example :
    ((exam_eligibility 7500 (missed ∷ []) [] 2).eligible ≡ false) ↔ (
      (any (λ (w : AttendanceWaiver). w.registration == 2) [] ≡ false)
      × ((p : ℕ) × ((attendance_summary (missed ∷ []) 2).percentage ≡ some p)
          × (p ≤ 10000)
          × (p < 7500)))
exam_eligibility-blocked_iff_example = exam_eligibility-blocked_iff 7500 (missed ∷ []) [] 2

-- a student who missed the only session is blocked
blocked : (exam_eligibility 7500 (missed ∷ []) [] 2).eligible ≡ false
unfolding exam_eligibility is_below_threshold attendance_summary percentage_of multiply quantize
    round_context scale_for half_up half_even
blocked = refl

abbrev waiver : AttendanceWaiver
waiver = record { id = 1; registration = 2; granted_by = some 1; reason = "ill" }

waiver_given : grant_waiver [] 2 (some 1) "ill" ≡ ok (waiver ∷ [], waiver)
unfolding grant_waiver is_blank
waiver_given = refl
