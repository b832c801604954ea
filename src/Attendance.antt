-- ===== src/Attendance.antt =====
-- Registers of classes and the right to sit an exam: backend/apps/attendance/services.py, with
-- backend/apps/attendance/models.py. Percentages are hundredths; days are numbers.
pub mod Register
pub mod Exams
use uni_acmis.Prelude.{
  in_list, distinct, ℕ, ◌+◌, ◌*◌, String, Option, none, some, or_else, Bool, true, false, ◌&&◌,
  ◌||◌, not, List, [], ◌∷◌, map, keep, any, count_if, find_first, next_key, update_row, get, ltb,
  leb, ◌==◌, if◌then◌else◌, is_blank, text_length, Result, ok, err, ◌>>=◌, ◌>>◌, raise_if,
  sorted_by,
}
use uni_acmis.Decimal.{multiply, quantize, round_context}
use uni_acmis.Timetabling.Classes.{TimetableEntry, entry_context}
use uni_acmis.Enrollment.{Registrations}
use uni_acmis.Enrollment.Lookups.{active_registration_ids}

pub data AttendanceStatus : Type 0 where
  present absent late excused : AttendanceStatus

pub record SessionRecord : Type 0 where
  pub id : ℕ
  pub timetable_entry : ℕ
  pub registration : ℕ
  pub session_date : ℕ
  pub status : AttendanceStatus
  pub notes : String
  pub recorded_by : Option ℕ

pub record AttendanceWaiver : Type 0 where
  pub id : ℕ
  pub registration : ℕ
  pub granted_by : Option ℕ
  pub reason : String

-- one entry of a register, with the keys that may be left out
pub record SessionMark : Type 0 where
  pub registration_id : ℕ
  pub status : Option AttendanceStatus
  pub notes : Option String

pub data AttendanceError : Type 0 where
  unregistered_student : List ℕ → AttendanceError
  waiver_reason_required validation_error entry_not_found : AttendanceError

abbrev pub record_id : SessionRecord → ℕ
record_id r = r.id

abbrev pub waiver_id : AttendanceWaiver → ℕ
waiver_id w = w.id

-- the course and the semester of a class, or its error
unfoldable pub context_of : List TimetableEntry → ℕ → Result AttendanceError (ℕ × ℕ)
context_of entries timetable_entry_id = elim (entry_context entries timetable_entry_id) [
  | ok context ↦ ok context
  | err _ ↦ err entry_not_found
]

-- the registrations of the marks that are not valid
abbrev pub invalid_ids : (valid_ids : List ℕ) → List SessionMark → List ℕ
invalid_ids valid_ids marks =
    keep (λ k. not (in_list k valid_ids)) (distinct (map (λ m. m.registration_id) marks))

abbrev pub is_empty : List ℕ → Bool
is_empty [] = true
is_empty (_ ∷ _) = false

-- the record of a registration in a session
abbrev pub same_session : (timetable_entry session_date registration : ℕ) → SessionRecord → Bool
same_session e d g r = (r.timetable_entry == e) && ((r.session_date == d) && (r.registration == g))

-- what a mark writes into a record
abbrev pub marked : SessionMark → Option ℕ → SessionRecord → SessionRecord
marked m actor r = record r {
  status = or_else m.status present;
  notes = or_else m.notes "";
  recorded_by = actor;
}

abbrev pub new_record :
    List SessionRecord → (timetable_entry session_date registration : ℕ) → SessionRecord
new_record rows e d g = record {
  id = next_key record_id rows;
  timetable_entry = e;
  registration = g;
  session_date = d;
  status = present;
  notes = "";
  recorded_by = none;
}

-- a step of the loop: the record that there is, or a new one
unfoldable pub save_mark :
    (timetable_entry session_date : ℕ)
    → Option ℕ
    → List SessionRecord
    → SessionMark
    → Result AttendanceError (List SessionRecord × SessionRecord)
save_mark e d actor rows m = do
  raise_if (ltb 255 (text_length (or_else m.notes ""))) validation_error
  elim (find_first (same_session e d m.registration_id) rows) [
    | some old ↦ ok (update_row record_id (marked m actor old) rows, marked m actor old)
    | none ↦ let r = marked m actor (new_record rows e d m.registration_id) in ok (r ∷ rows, r)
  ]

unfoldable pub save_marks :
    (timetable_entry session_date : ℕ)
    → Option ℕ
    → List SessionRecord
    → List SessionMark
    → Result AttendanceError (List SessionRecord × List SessionRecord)
save_marks e d actor rows [] = ok (rows, [])
save_marks e d actor rows (m ∷ marks) = do
  saved ← save_mark e d actor rows m
  rest ← save_marks e d actor saved.0 marks
  ok (rest.0, saved.1 ∷ rest.1)

unfoldable pub record_session :
    List TimetableEntry
    → Registrations
    → List SessionRecord
    → (timetable_entry_id session_date : ℕ) → List SessionMark
    → Option ℕ
    → Result AttendanceError (List SessionRecord × List SessionRecord)
record_session entries registrations rows timetable_entry_id session_date marks actor = do
  context ← context_of entries timetable_entry_id
  let invalid = invalid_ids (active_registration_ids registrations context.0 context.1) marks
  raise_if (not (is_empty invalid)) (unregistered_student (sorted_by leb invalid))
  save_marks timetable_entry_id session_date actor rows marks

unfoldable pub session_records :
    List SessionRecord → (timetable_entry_id session_date : ℕ) → List SessionRecord
session_records rows e d = keep (λ r. (r.timetable_entry == e) && (r.session_date == d)) rows

abbrev pub is_counted : AttendanceStatus → Bool
is_counted present = true
is_counted absent = true
is_counted late = true
is_counted excused = false

abbrev pub is_attended : AttendanceStatus → Bool
is_attended present = true
is_attended absent = false
is_attended late = true
is_attended excused = false

pub record Summary : Type 0 where
  pub sessions_recorded : ℕ
  pub sessions_attended : ℕ
  pub percentage : Option ℕ

-- `_quantize(Decimal(attended) / Decimal(total) * 100) if total else None`
unfoldable pub percentage_of : (attended total : ℕ) → Option ℕ
percentage_of attended total =
    if total == 0 then none else some (quantize (multiply (round_context attended total) 100 0))

unfoldable pub attendance_summary : List SessionRecord → ℕ → Summary
attendance_summary rows registration_id =
    let records = keep (λ r. r.registration == registration_id) rows in
    let total = count_if (λ r. is_counted r.status) records in
    let attended = count_if (λ r. is_attended r.status) records in
    record {
      sessions_recorded = total;
      sessions_attended = attended;
      percentage = percentage_of attended total;
    }

abbrev pub below : (threshold : ℕ) → Option ℕ → Bool
below threshold none = false
below threshold (some p) = ltb p threshold

unfoldable pub is_below_threshold : (threshold : ℕ) → List SessionRecord → ℕ → Bool
is_below_threshold threshold rows registration_id =
    below threshold (attendance_summary rows registration_id).percentage

pub record Eligibility : Type 0 where
  pub summary : Summary
  pub threshold : ℕ
  pub below_threshold : Bool
  pub waived : Bool
  pub eligible : Bool

unfoldable pub exam_eligibility :
    (threshold : ℕ) → List SessionRecord → List AttendanceWaiver → ℕ → Eligibility
exam_eligibility threshold rows waivers registration_id =
    let is_below = is_below_threshold threshold rows registration_id in
    let waived = any (λ w. w.registration == registration_id) waivers in
    record {
      summary = attendance_summary rows registration_id;
      threshold = threshold;
      below_threshold = is_below;
      waived = waived;
      eligible = not is_below || waived;
    }

unfoldable pub grant_waiver :
    List AttendanceWaiver
    → (registration_id : ℕ) → Option ℕ
    → (reason : String) → Result AttendanceError (List AttendanceWaiver × AttendanceWaiver)
grant_waiver waivers registration_id actor reason = do
  raise_if (is_blank reason) waiver_reason_required
  elim (find_first (λ w. w.registration == registration_id) waivers) [
    | some old ↦
        let w : AttendanceWaiver = record old { granted_by = actor; reason = reason } in
        ok (update_row waiver_id w waivers, w)
    | none ↦
        let w : AttendanceWaiver = record {
          id = next_key waiver_id waivers;
          registration = registration_id;
          granted_by = actor;
          reason = reason;
        } in
        ok (w ∷ waivers, w)
  ]
