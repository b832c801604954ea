-- ===== src/Hostel/Capacity.antt =====
-- No room is over its capacity, and no student has two rooms.
use mathlib.Core.Path.{subst}
use text.Mathlib.Text.{◌==◌ as str_eq}
use uni_acmis.Prelude.{
  Run, Run-keeps, ℕ, ◌-◌, ◌≤◌, ◌≡◌, refl, sym, ◌∙◌, ap, String, Option, some, some_injective, false,
  not, List, [], ◌∷◌, arith, any, count_if, count_if-update_row, get, get_key, next_key, update_row,
  UniqueKeys, UniqueKeys-insert, UniqueKeys-update_row, leb, if◌then◌else◌, Bool-cases,
  Option-cases, inl, inr, ok, bind_ok, raise_if_ok, ok_injective, ◌==◌, ==_iff, text_length,
}
use uni_acmis.Hostel.{
  Room, Allocation, vacated, room_id, allocation_id, is_active, occupies, houses, occupied_beds,
  available_beds, gender_for_student, find_room, allocate_room, clean_allocation, vacate_allocation,
}

pub data Step (rooms : List Room) (genders : List (ℕ × String))
    : List Allocation → List Allocation → Type 0 where
  allocates :
      {rows rows' : List Allocation} (now student_id room_key academic_year_id : ℕ)
      (actor : Option ℕ) (a : Allocation)
      → allocate_room rooms genders now rows student_id room_key academic_year_id actor
        ≡ ok (rows', a)
      → Step rooms genders rows rows'
  vacates :
      {rows rows' : List Allocation} (now : ℕ) (old a : Allocation) (actor : Option ℕ)
      (reason : String)
      → get allocation_id old.id rows ≡ some old
      → vacate_allocation rooms genders now rows old actor reason ≡ ok (rows', a)
      → Step rooms genders rows rows'

abbrev pub Steps :
    (rooms : List Room) (genders : List (ℕ × String)) → List Allocation → List Allocation → Type 0
Steps rooms genders = Run (Step rooms genders)

-- every room has at most its capacity of occupants, and every student at most one room
abbrev pub WithinCapacity : List Room → List Allocation → Type 0
WithinCapacity rooms rows =
    ((k : ℕ) (room : Room)
      → get room_id k rooms ≡ some room
      → occupied_beds rows room ≤ room.capacity)
    × ((s : ℕ) → count_if (houses s) rows ≤ 1)

abbrev Kept : List Room → List Allocation → Type 0
Kept rooms rows = UniqueKeys allocation_id rows × WithinCapacity rooms rows

find_room_ok :
    (rooms : List Room) (key : ℕ) (room : Room)
    → find_room rooms key ≡ ok room
    → get room_id key rooms ≡ some room
find_room_ok rooms key room h = elim (Option-cases (get room_id key rooms)) [
  | inl e ↦ absurd (ground (arith, e, h))
  | inr (q, e) ↦ ground (arith, e, h)
]

none_housed :
    (s : ℕ) (rows : List Allocation) → any (houses s) rows ≡ false → count_if (houses s) rows ≡ 0
none_housed s [] h = refl
none_housed s (a ∷ rows) h = ground (arith, none_housed s rows)

-- what an allocation adds
allocate_room-row :
    (rooms : List Room) (genders : List (ℕ × String)) (now : ℕ) (rows rows' : List Allocation)
    (student_id room_key academic_year_id : ℕ) (actor : Option ℕ) (a : Allocation)
    → allocate_room rooms genders now rows student_id room_key academic_year_id actor
      ≡ ok (rows', a)
    → (room : Room) × (get room_id room_key rooms ≡ some room)
      × (rows' ≡ a ∷ rows)
      × (a.id ≡ next_key allocation_id rows)
      × (a.room ≡ room.id)
      × (a.student ≡ student_id)
      × (leb (available_beds rows room) 0 ≡ false)
      × (any (houses student_id) rows ≡ false)
unfolding allocate_room
allocate_room-row rooms genders now rows rows' student_id room_key year actor a h =
    let (room, found, h1) = bind_ok (find_room rooms room_key) _ h in
    let (free, h2) = raise_if_ok (leb (available_beds rows room) 0) _ _ h1 in
    let (gender, g, h3) = bind_ok (gender_for_student genders student_id) _ h2 in
    let (same, h4) = raise_if_ok (not (str_eq gender room.gender_restriction)) _ _ h3 in
    let (alone, h5) = raise_if_ok (any (houses student_id) rows) _ _ h4 in
    let e = ok_injective (sym h5) in
    (
      room,
      find_room_ok rooms room_key room found,
      ap (λ q. q.0) e ∙ ap (λ q. q.1 ∷ rows) (sym e),
      ap (λ q. q.1.id) e,
      ap (λ q. q.1.room) e,
      ap (λ q. q.1.student) e,
      free,
      alone,
    )

beds_after :
    (rows : List Allocation) (a : Allocation) (room other : Room) (k key : ℕ)
    → room.id ≡ key
    → other.id ≡ k
    → (key ≡ k → room ≡ other)
    → a.room ≡ room.id
    → leb (available_beds rows room) 0 ≡ false
    → occupied_beds rows other ≤ other.capacity
    → occupied_beds (a ∷ rows) other ≤ other.capacity
unfolding occupied_beds available_beds
beds_after rows a room other k key e f same of free within =
    elim (Bool-cases (a.room == other.id)) [
      | inr apart ↦ ground (arith, apart, within)
      | inl here ↦
          let one : room ≡ other = same (sym e ∙ sym of ∙ (==_iff a.room other.id).0 here ∙ f) in
          let free' =
            subst (λ r. leb (r.capacity - count_if (occupies r.id) rows) 0 ≡ false) one free in
          ground (arith, free', within)
    ]

single_after :
    (rows : List Allocation) (a : Allocation) (s t : ℕ)
    → a.student ≡ s
    → count_if (houses s) rows ≡ 0
    → count_if (houses t) rows ≤ 1
    → count_if (houses t) (a ∷ rows) ≤ 1
single_after rows a s t who zero_housed single = elim (Bool-cases (a.student == t)) [
  | inr apart ↦ ground (arith, apart, single)
  | inl here ↦
      let e : s ≡ t = sym who ∙ (==_iff a.student t).0 here in
      let zero' : count_if (houses t) rows ≡ 0 =
        subst (λ x. count_if (houses x) rows ≡ 0) e zero_housed in
      ground (arith, zero')
]

allocate_keeps :
    (rooms : List Room) (genders : List (ℕ × String)) (now : ℕ) (rows rows' : List Allocation)
    (student_id room_key academic_year_id : ℕ) (actor : Option ℕ) (a : Allocation)
    → allocate_room rooms genders now rows student_id room_key academic_year_id actor
      ≡ ok (rows', a)
    → Kept rooms rows
    → Kept rooms rows'
allocate_keeps rooms genders now rows rows' s room_key year actor a h (u, (beds, single)) =
    let (room, found, saved, id_new, of, who, free, alone) =
      allocate_room-row rooms genders now rows rows' s room_key year actor a h in
    subst (Kept rooms) (sym saved) (
      UniqueKeys-insert allocation_id a rows id_new u,
      (
        λ k other found'.
            beds_after rows a room other k room_key (get_key room_id room_key room rooms found)
              (get_key room_id k other rooms found')
              (λ e. some_injective (sym found ∙ ap (λ x. get room_id x rooms) e ∙ found')) of free
              (beds k other found'),
        λ t. single_after rows a s t who (none_housed s rows alone) (single t),
      ),
    )

-- the row that a vacation saves
abbrev vacated_row : (now : ℕ) → Allocation → Option ℕ → String → Allocation
vacated_row now old actor reason = record old {
  status = vacated;
  vacated_at = some now;
  vacated_by = actor;
  notes = if text_length reason == 0 then old.notes else reason;
}

-- a clean row is saved as it is
clean_allocation-same :
    (rooms : List Room) (genders : List (ℕ × String)) (a b : Allocation)
    → clean_allocation rooms genders a ≡ ok b
    → a ≡ b
unfolding clean_allocation
clean_allocation-same rooms genders a b h =
    let (room, _, h1) = bind_ok (find_room rooms a.room) _ h in
    let (gender, _, h2) = bind_ok (gender_for_student genders a.student) _ h1 in
    let (_, h3) = raise_if_ok _ _ _ h2 in ok_injective h3

vacate_keeps :
    (rooms : List Room) (genders : List (ℕ × String)) (now : ℕ) (rows rows' : List Allocation)
    (old a : Allocation) (actor : Option ℕ) (reason : String)
    → get allocation_id old.id rows ≡ some old
    → vacate_allocation rooms genders now rows old actor reason ≡ ok (rows', a)
    → Kept rooms rows
    → Kept rooms rows'
unfolding vacate_allocation occupied_beds
vacate_keeps rooms genders now rows rows' old a actor reason g h (u, (beds, single)) =
    let (b, h1) = raise_if_ok (not (is_active old.status)) _ _ h in
    let r = vacated_row now old actor reason in
    let (saved, cleaned, h2) = bind_ok (clean_allocation rooms genders r) _ h1 in
    let same = clean_allocation-same rooms genders r saved cleaned in
    subst (Kept rooms)
      (ap (λ x. update_row allocation_id x rows) same ∙ ap (λ q. q.0) (ok_injective h2))
      (
        UniqueKeys-update_row allocation_id r rows u,
        (
          λ k room found. omega (
            arith,
            beds k room found,
            count_if-update_row allocation_id (occupies room.id) r old rows u g (ground arith),
          ),
          λ t. omega (
            arith,
            single t,
            count_if-update_row allocation_id (houses t) r old rows u g (ground arith),
          ),
        ),
      )

empty_beds :
    (rooms : List Room) (k : ℕ) (room : Room)
    → get room_id k rooms ≡ some room
    → occupied_beds [] room ≤ room.capacity
unfolding occupied_beds
empty_beds rooms k room found = omega arith

Step-keeps :
    (rooms : List Room) (genders : List (ℕ × String)) {rows rows' : List Allocation}
    → Step rooms genders rows rows'
    → Kept rooms rows
    → Kept rooms rows'
Step-keeps rooms genders (allocates {rows} {rows'} now s key year actor a h) k =
    allocate_keeps rooms genders now rows rows' s key year actor a h k
Step-keeps rooms genders (vacates {rows} {rows'} now old a actor reason g h) k =
    vacate_keeps rooms genders now rows rows' old a actor reason g h k

Steps-keeps :
    (rooms : List Room) (genders : List (ℕ × String)) {rows rows' : List Allocation}
    → Steps rooms genders rows rows'
    → Kept rooms rows
    → Kept rooms rows'
Steps-keeps rooms genders steps k =
    Run-keeps (Step rooms genders) (Kept rooms) (λ a b s k. Step-keeps rooms genders s k) steps k

-- After any sequence of allocations and of vacations of stored allocations, from none and while the
-- rooms stay as they are, no room has more active occupants than its capacity, and no student holds
-- more than one active allocation.
pub rooms-WithinCapacity :
    (rooms : List Room) (genders : List (ℕ × String)) (rows : List Allocation)
    → Steps rooms genders [] rows
    → WithinCapacity rooms rows
rooms-WithinCapacity rooms genders rows steps =
    (Steps-keeps rooms genders steps ((λ k. omega arith), (empty_beds rooms, λ s. omega arith))).1
