-- ===== src/Timetabling/Classes/Clashes.antt =====
-- No room and no lecturer has two classes at once.
use mathlib.Core.Path.{subst}
use uni_acmis.Prelude.{
  Run, Run-keeps, ℕ, ◌≤◌, ◌<◌, ◌≡◌, ◌≢◌, refl, ap, Option, none, some, Bool, false, ◌&&◌, ◌||◌, not,
  List, [], ◌∷◌, map, arith, ◌==◌, ltb, leb, get, get-All, get_key, next_key, All, All-update_row,
  none_of-get, Apart, Apart-nil, Apart-insert, Apart-update_row, Apart-map, Fits, ok, raise_if_ok,
  bind_ok, ok_injective, Bool-cases, inl, inr,
}
use uni_acmis.Timetabling.{overlap, names_row, is_excluded}
use uni_acmis.Timetabling.Classes.{
  TimetableEntry, entry_id, Slot, takes, slot_of, room_busy, lecturer_busy, check_slot,
  create_entry, EntryChange, changed_entry, update_entry, is_to_publish, publish_entry,
  publish_timetable,
}

-- whether two keys name one row
abbrev pub share : Option ℕ → Option ℕ → Bool
share none o = false
share (some k) o = names_row k o

pub share_sym : (a b : Option ℕ) → share a b ≡ share b a
share_sym none none = refl
share_sym none (some j) = refl
share_sym (some k) none = refl
share_sym (some k) (some j) = ground arith

-- two classes of one semester at overlapping times of a day, in one room or with one lecturer
unfoldable pub clashes : TimetableEntry → TimetableEntry → Bool
unfolding takes overlap
clashes a b = takes (slot_of a) b && (share a.room b.room || share a.lecturer b.lecturer)

takes_sym : (a b : TimetableEntry) → takes (slot_of a) b ≡ takes (slot_of b) a
unfolding takes overlap
takes_sym a b = ground arith

clashes_sym : (a b : TimetableEntry) → clashes a b ≡ clashes b a
unfolding clashes
clashes_sym a b =
    ground (arith, takes_sym a b, share_sym a.room b.room, share_sym a.lecturer b.lecturer)

abbrev pub ClashFree : List TimetableEntry → Type 0
ClashFree entries = Apart entry_id clashes entries

-- a class ends after it starts, on a day of the week
abbrev pub IsTimed : TimetableEntry → Type 0
IsTimed e = (e.start_time < e.end_time) × (e.day_of_week ≤ 6)

pub data Step : List TimetableEntry → List TimetableEntry → Type 0 where
  creates :
      {rows rows' : List TimetableEntry} (course semester day start end : ℕ)
      (room lecturer : Option ℕ) (e : TimetableEntry)
      → create_entry rows course semester day start end room lecturer ≡ ok (rows', e)
      → Step rows rows'
  updates :
      {rows rows' : List TimetableEntry} (old e : TimetableEntry) (change : EntryChange)
      → get entry_id old.id rows ≡ some old
      → update_entry rows old change ≡ ok (rows', e)
      → Step rows rows'
  publishes :
      {rows : List TimetableEntry} (now semester : ℕ) (actor : Option ℕ)
      → Step rows (publish_timetable now rows semester actor).0

abbrev pub Steps : List TimetableEntry → List TimetableEntry → Type 0
Steps = Run Step

-- the guard on rooms, at one stored entry
room_free :
    (rows : List TimetableEntry) (room : Option ℕ) (s : Slot) (pk : Option ℕ) (j : ℕ)
    (b : TimetableEntry)
    → room_busy rows room s pk ≡ false
    → get entry_id j rows ≡ some b
    → is_excluded pk b.id ≡ false
    → (takes s b && share room b.room) ≡ false
unfolding room_busy
room_free rows none s pk j b h g x = ground arith
room_free rows (some room) s pk j b h g x = ground (
  arith,
  none_of-get entry_id (λ e. names_row room e.room && (not (is_excluded pk e.id) && takes s e)) j b
      rows h g,
  x,
)

lecturer_free :
    (rows : List TimetableEntry) (lecturer : Option ℕ) (s : Slot) (pk : Option ℕ) (j : ℕ)
    (b : TimetableEntry)
    → lecturer_busy rows lecturer s pk ≡ false
    → get entry_id j rows ≡ some b
    → is_excluded pk b.id ≡ false
    → (takes s b && share lecturer b.lecturer) ≡ false
unfolding lecturer_busy
lecturer_free rows none s pk j b h g x = ground arith
lecturer_free rows (some lecturer) s pk j b h g x = ground (
  arith,
  none_of-get entry_id
      (λ e. names_row lecturer e.lecturer && (not (is_excluded pk e.id) && takes s e)) j b rows h g,
  x,
)

-- an entry that passes the guards fits beside all that are not excluded
check_slot-Fits :
    (rows : List TimetableEntry) (e : TimetableEntry) (pk : Option ℕ)
    → check_slot rows e.room e.lecturer (slot_of e) pk ≡ ok tt
    → ((j : ℕ) → e.id ≢ j → is_excluded pk j ≡ false)
    → (e.start_time < e.end_time) × Fits entry_id clashes e rows
unfolding check_slot clashes
check_slot-Fits rows e pk h kept =
    let (timed, h1) = raise_if_ok (not (ltb e.start_time e.end_time)) _ _ h in
    let (room, h2) = raise_if_ok (room_busy rows e.room (slot_of e) pk) _ _ h1 in
    (
      ground (arith, timed),
      λ j b d g.
          let key : b.id ≡ j = get_key entry_id j b rows g in
          let x : is_excluded pk b.id ≡ false = rw key (kept j d) in
          let lecturer : lecturer_busy rows e.lecturer (slot_of e) pk ≡ false =
            ground (arith, h2) in
          ground (
            arith,
            room_free rows e.room (slot_of e) pk j b room g x,
            lecturer_free rows e.lecturer (slot_of e) pk j b lecturer g x,
          ),
    )

abbrev Kept : List TimetableEntry → Type 0
Kept rows = ClashFree rows × All IsTimed rows

create_keeps :
    (rows rows' : List TimetableEntry) (course semester day start end : ℕ)
    (room lecturer : Option ℕ) (e : TimetableEntry)
    → create_entry rows course semester day start end room lecturer ≡ ok (rows', e)
    → Kept rows
    → Kept rows'
unfolding create_entry
create_keeps rows rows' course semester day start end room lecturer e h (free, timed) =
    let r : TimetableEntry = record {
      id = next_key entry_id rows;
      course = course;
      semester = semester;
      room = room;
      lecturer = lecturer;
      day_of_week = day;
      start_time = start;
      end_time = end;
      is_published = false;
      published_at = none;
      published_by = none;
    } in
    let (_, checked, h1) = bind_ok (check_slot rows room lecturer (slot_of r) none) _ h in
    let (week, h2) = raise_if_ok (ltb 6 day) _ _ h1 in
    let (order, fits) = check_slot-Fits rows r none checked (λ j d. refl) in
    subst Kept (ap (λ q. q.0) (ok_injective h2)) (
      Apart-insert entry_id clashes clashes_sym r rows fits free,
      ((order, ground (arith, week)), timed),
    )

update_keeps :
    (rows rows' : List TimetableEntry) (old e : TimetableEntry) (change : EntryChange)
    → get entry_id old.id rows ≡ some old
    → update_entry rows old change ≡ ok (rows', e)
    → Kept rows
    → Kept rows'
unfolding update_entry
update_keeps rows rows' old e change g h (free, timed) =
    let r = changed_entry old change in
    let (_, checked, h1) =
      bind_ok (check_slot rows r.room r.lecturer (slot_of r) (some r.id)) _ h in
    let (week, h2) = raise_if_ok (ltb 6 r.day_of_week) _ _ h1 in
    let (order, fits) = check_slot-Fits rows r (some r.id) checked (λ j d. ground (arith, d)) in
    subst Kept (ap (λ q. q.0) (ok_injective h2)) (
      Apart-update_row entry_id clashes clashes_sym r old rows g fits free,
      All-update_row entry_id IsTimed r rows (order, ground (arith, week)) timed,
    )

publish-key :
    (now semester : ℕ) (actor : Option ℕ) (e : TimetableEntry)
    → (publish_entry now semester actor e).id ≡ e.id
publish-key now semester actor e = ground arith

publish-clashes :
    (now semester : ℕ) (actor : Option ℕ) (a b : TimetableEntry)
    → clashes (publish_entry now semester actor a) (publish_entry now semester actor b)
      ≡ clashes a b
unfolding clashes
publish-clashes now semester actor a b = elim (Bool-cases (is_to_publish semester a)) [
  | inl p ↦ elim (Bool-cases (is_to_publish semester b)) [
    | inl q ↦ rw (p, q) refl
    | inr q ↦ rw (p, q) refl
  ]
  | inr p ↦ elim (Bool-cases (is_to_publish semester b)) [
    | inl q ↦ rw (p, q) refl
    | inr q ↦ rw (p, q) refl
  ]
]

publish-IsTimed :
    (now semester : ℕ) (actor : Option ℕ) (rows : List TimetableEntry)
    → All IsTimed rows
    → All IsTimed (map (publish_entry now semester actor) rows)
publish-IsTimed now semester actor [] h = tt
publish-IsTimed now semester actor (e ∷ rows) (h, rest) = (
  elim (Bool-cases (is_to_publish semester e)) [ inl p ↦ rw p h | inr p ↦ rw p h ],
  publish-IsTimed now semester actor rows rest,
)

Step-keeps : {rows rows' : List TimetableEntry} → Step rows rows' → Kept rows → Kept rows'
unfolding publish_timetable
Step-keeps (creates {rows} {rows'} course semester day start end room lecturer e h) k =
    create_keeps rows rows' course semester day start end room lecturer e h k
Step-keeps (updates {rows} {rows'} old e change g h) k = update_keeps rows rows' old e change g h k
Step-keeps (publishes {rows} now semester actor) (free, timed) = (
  Apart-map entry_id clashes (publish_entry now semester actor) (publish-key now semester actor)
      (publish-clashes now semester actor) rows free,
  publish-IsTimed now semester actor rows timed,
)

Steps-keeps : {rows rows' : List TimetableEntry} → Steps rows rows' → Kept rows → Kept rows'
Steps-keeps steps k = Run-keeps Step Kept (λ a b s k. Step-keeps s k) steps k

-- whether two classes of a semester are both on at a time of one day of the week
abbrev pub together : TimetableEntry → TimetableEntry → (time : ℕ) → Bool
together a b time =
    (a.semester == b.semester)
    && (a.day_of_week == b.day_of_week)
    && (leb a.start_time time && ltb time a.end_time)
    && (leb b.start_time time && ltb time b.end_time)

clash_at :
    (a b : TimetableEntry) (time : ℕ)
    → clashes a b ≡ false
    → (together a b time && (share a.room b.room || share a.lecturer b.lecturer)) ≡ false
unfolding clashes takes overlap
clash_at a b time h = ground (arith, h)

-- After any sequence of creations, updates of stored entries and publications, from an empty timetable,
-- two different classes of a semester that are on at one time of a day of the week share neither a room
-- nor a lecturer, and a class ends after it starts, on a day of the week.
pub classes-NoDoubleBooking :
    (rows : List TimetableEntry) (i j : ℕ) (a b : TimetableEntry) (time : ℕ)
    → Steps [] rows
    → i ≢ j
    → get entry_id i rows ≡ some a
    → get entry_id j rows ≡ some b
    → ((together a b time && (share a.room b.room || share a.lecturer b.lecturer)) ≡ false)
      × (a.start_time < a.end_time)
      × (a.day_of_week ≤ 6)
classes-NoDoubleBooking rows i j a b time steps d g h =
    let (free, timed) = Steps-keeps steps (Apart-nil entry_id clashes, tt) in
    let (order, week) = get-All entry_id IsTimed i a rows g timed in
    (clash_at a b time (free i j a b d g h), order, week)
