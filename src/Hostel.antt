-- ===== src/Hostel.antt =====
-- Rooms and their allocation: backend/apps/hostel/services.py, with backend/apps/hostel/models.py.
-- Times are numbers; what is read of students is a table of their rows.
pub mod Capacity
pub mod Priority
use text.Mathlib.Text.{◌==◌ as str_eq}
use uni_acmis.Prelude.{
  ℕ, ◌-◌, String, Option, none, some, or_else, Bool, true, false, ◌&&◌, ◌||◌, not, List, [], ◌∷◌,
  any, count_if, find_first, next_key, update_row, get, ltb, leb, ◌==◌, if◌then◌else◌, text_length,
  Result, ok, err, ◌>>=◌, ◌>>◌, raise_if, sorted_by, ℤ, pos,
}

pub record Room : Type 0 where
  pub id : ℕ
  pub building : String
  pub room_number : String
  pub capacity : ℕ
  pub gender_restriction : String

pub data AllocationStatus : Type 0 where
  active vacated : AllocationStatus

pub record Allocation : Type 0 where
  pub id : ℕ
  pub student : ℕ
  pub room : ℕ
  pub academic_year : ℕ
  pub status : AllocationStatus
  pub allocated_at : ℕ
  pub allocated_by : Option ℕ
  pub vacated_at : Option ℕ
  pub vacated_by : Option ℕ
  pub notes : String

pub data HostelError : Type 0 where
  room_full gender_mismatch already_allocated not_active room_not_found student_not_found
        validation_error :
      HostelError

abbrev pub room_id : Room → ℕ
room_id r = r.id

abbrev pub allocation_id : Allocation → ℕ
allocation_id a = a.id

abbrev pub is_active : AllocationStatus → Bool
is_active active = true
is_active vacated = false

-- whether an allocation takes a bed of a room
abbrev pub occupies : ℕ → Allocation → Bool
occupies room_key a = (a.room == room_key) && is_active a.status

-- whether a student lives somewhere by an allocation
abbrev pub houses : ℕ → Allocation → Bool
houses student_id a = (a.student == student_id) && is_active a.status

unfoldable pub occupied_beds : List Allocation → Room → ℕ
occupied_beds rows room = count_if (occupies room.id) rows

-- `Room.available_beds`
unfoldable pub available_beds : List Allocation → Room → ℕ
available_beds rows room = room.capacity - occupied_beds rows room

unfoldable pub gender_for_student : List (ℕ × String) → ℕ → Result HostelError String
gender_for_student students student_id = elim (find_first (λ s. s.0 == student_id) students) [
  | some s ↦ ok s.1
  | none ↦ err student_not_found
]

abbrev pub find_room : List Room → ℕ → Result HostelError Room
find_room rooms key = elim (get room_id key rooms) [ some r ↦ ok r | none ↦ err room_not_found ]

unfoldable pub allocate_room :
    List Room
    → (genders : List (ℕ × String)) → (now : ℕ) → List Allocation
    → (student_id room_key academic_year_id : ℕ) → Option ℕ
    → Result HostelError (List Allocation × Allocation)
allocate_room rooms genders now rows student_id room_key academic_year_id actor = do
  room ← find_room rooms room_key
  raise_if (leb (available_beds rows room) 0) room_full
  gender ← gender_for_student genders student_id
  raise_if (not (str_eq gender room.gender_restriction)) gender_mismatch
  raise_if (any (houses student_id) rows) already_allocated
  let a : Allocation = record {
    id = next_key allocation_id rows;
    student = student_id;
    room = room.id;
    academic_year = academic_year_id;
    status = active;
    allocated_at = now;
    allocated_by = actor;
    vacated_at = none;
    vacated_by = none;
    notes = "";
  }
  ok (a ∷ rows, a)

-- `Allocation.clean`
unfoldable pub clean_allocation :
    List Room → (genders : List (ℕ × String)) → Allocation → Result HostelError Allocation
clean_allocation rooms genders a = do
  room ← find_room rooms a.room
  gender ← gender_for_student genders a.student
  raise_if (not (str_eq gender room.gender_restriction)) validation_error
  ok a

unfoldable pub vacate_allocation :
    List Room
    → (genders : List (ℕ × String)) → (now : ℕ) → List Allocation
    → Allocation
    → Option ℕ
    → (reason : String) → Result HostelError (List Allocation × Allocation)
vacate_allocation rooms genders now rows allocation actor reason = do
  raise_if (not (is_active allocation.status)) not_active
  let a : Allocation = record allocation {
    status = vacated;
    vacated_at = some now;
    vacated_by = actor;
    notes = if text_length reason == 0 then allocation.notes else reason;
  }
  saved ← clean_allocation rooms genders a
  ok (update_row allocation_id saved rows, saved)

-- a row of `hostel_priority_profile`
pub record Profile : Type 0 where
  pub id : ℕ
  pub has_disability : Bool
  pub from_outside : Bool
  pub entry_academic_year : Option ℕ

-- the three parts of the sort key
abbrev pub Key : Type 0
Key = ℕ × ℕ × ℕ

unfoldable pub profile_key : Option Profile → Key
profile_key none = (1, 1, 0)
profile_key (some p) = (
  if p.has_disability then 0 else 1,
  if p.from_outside then 0 else 1,
  or_else p.entry_academic_year 0,
)

unfoldable pub priority_key : List Profile → ℕ → Key
priority_key profiles student_id = profile_key (get (λ p. p.id) student_id profiles)

-- the comparison of two keys, part by part
unfoldable pub key_le : Key → Key → Bool
key_le (a, b, c) (x, y, z) = ltb a x || ((a == x) && (ltb b y || ((b == y) && leb c z)))

unfoldable pub waiting_list_priority : List Profile → List ℕ → List ℕ
waiting_list_priority profiles student_ids =
    sorted_by (λ s t. key_le (priority_key profiles s) (priority_key profiles t)) student_ids

-- the fee of the policy, where there is one
unfoldable pub policy_fee : Option ℤ → ℤ
policy_fee none = pos 0
policy_fee (some fee) = fee

unfoldable pub fee_for_active_allocation :
    (policy : Option ℤ) → List Allocation → (student_id academic_year_id : ℕ) → ℤ
fee_for_active_allocation policy rows student_id academic_year_id =
    if any (λ a. houses student_id a && (a.academic_year == academic_year_id)) rows
    then policy_fee policy
    else pos 0
