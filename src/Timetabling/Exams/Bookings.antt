-- ===== src/Timetabling/Exams/Bookings.antt =====
-- No room has two exams at once, no course two exams in a semester, and exams lie in the examination period.
use mathlib.Core.Path.{subst}
use uni_acmis.Prelude.{
  Run, Run-keeps, ℕ, ◌<◌, ◌≤◌, ◌≡◌, ◌≢◌, refl, ◌⊎◌, ◌∙◌, ap, Option, none, some, Bool, false, ◌&&◌,
  ◌||◌, not, List, [], ◌∷◌, map, arith, ◌==◌, ltb, leb, get, get-All, get_key, next_key, All,
  All-update_row, none_of-get, Apart, Apart-nil, Apart-insert, Apart-update_row, Apart-map, Fits,
  ok, raise_if_ok, bind_ok, ok_injective, any, Bool-cases, inl, inr,
}
use uni_acmis.Academics.Calendar.{Semester, get_semester}
use uni_acmis.Timetabling.{overlap, names_row, is_excluded}
use uni_acmis.Timetabling.Classes.Clashes.{share, share_sym}
use uni_acmis.Timetabling.Exams.{
  ExamTimetable, exam_id, Sitting, sitting_of, takes, exam_room_busy, invigilators_busy, given_busy,
  find_semester, is_outside, clean_exam, create_exam_entry, ExamChange, changed_exam,
  update_exam_entry, is_to_publish, publish_exam, publish_exam_timetable,
}

-- two exams at overlapping times of a date in one room, or of one course in one semester
unfoldable pub clashes : ExamTimetable → ExamTimetable → Bool
clashes a b =
    (takes (sitting_of a) b && share a.room b.room)
    || ((b.course == a.course) && (b.semester == a.semester))

takes_sym : (a b : ExamTimetable) → takes (sitting_of a) b ≡ takes (sitting_of b) a
unfolding takes overlap
takes_sym a b = ground arith

clashes_sym : (a b : ExamTimetable) → clashes a b ≡ clashes b a
unfolding clashes
clashes_sym a b = ground (arith, takes_sym a b, share_sym a.room b.room)

-- what the guards say of an exam by itself
abbrev pub IsTimed : List Semester → ExamTimetable → Type 0
IsTimed semesters e =
    (e.start_time < e.end_time)
    × ((s : Semester) × (find_semester semesters e.semester ≡ ok s)
        × (is_outside s.exam_start s.exam_end e.exam_date ≡ false))

pub data Step (semesters : List Semester) : List ExamTimetable → List ExamTimetable → Type 0 where
  creates :
      {rows rows' : List ExamTimetable} (course semester date start end : ℕ) (room : Option ℕ)
      (invigilators : List ℕ) (e : ExamTimetable)
      → create_exam_entry semesters rows course semester date start end room invigilators
        ≡ ok (rows', e)
      → Step semesters rows rows'
  updates :
      {rows rows' : List ExamTimetable} (old e : ExamTimetable) (change : ExamChange)
      → get exam_id old.id rows ≡ some old
      → update_exam_entry semesters rows old change ≡ ok (rows', e)
      → Step semesters rows rows'
  publishes :
      {rows : List ExamTimetable} (now semester : ℕ) (actor : Option ℕ)
      → Step semesters rows (publish_exam_timetable now rows semester actor).0

abbrev pub Steps : (semesters : List Semester) → List ExamTimetable → List ExamTimetable → Type 0
Steps semesters = Run (Step semesters)

-- the guard on rooms, at one stored exam
room_free :
    (rows : List ExamTimetable) (room : Option ℕ) (s : Sitting) (pk : Option ℕ) (j : ℕ)
    (b : ExamTimetable)
    → exam_room_busy rows room s pk ≡ false
    → get exam_id j rows ≡ some b
    → is_excluded pk b.id ≡ false
    → (takes s b && share room b.room) ≡ false
unfolding exam_room_busy
room_free rows none s pk j b h g x = ground arith
room_free rows (some room) s pk j b h g x = ground (
  arith,
  none_of-get exam_id (λ e. names_row room e.room && (not (is_excluded pk e.id) && takes s e)) j b
      rows h g,
  x,
)

-- the unique constraint, at one stored exam
course_free :
    (rows : List ExamTimetable) (e b : ExamTimetable) (j : ℕ)
    → clean_exam rows e ≡ ok tt
    → get exam_id j rows ≡ some b
    → e.id ≢ b.id
    → ((b.course == e.course) && (b.semester == e.semester)) ≡ false
unfolding clean_exam
course_free rows e b j h g d =
    let p : ExamTimetable → Bool =
      λ x. (x.course == e.course) && ((x.semester == e.semester) && not (x.id == e.id)) in
    let clean : any p rows ≡ false = ground (arith, h) in
    ground (arith, none_of-get exam_id p j b rows clean g, d)

checked-Fits :
    (rows : List ExamTimetable) (e : ExamTimetable) (pk : Option ℕ)
    → exam_room_busy rows e.room (sitting_of e) pk ≡ false
    → clean_exam rows e ≡ ok tt
    → ((j : ℕ) → e.id ≢ j → is_excluded pk j ≡ false)
    → Fits exam_id clashes e rows
unfolding clashes
checked-Fits rows e pk room clean kept j b d g =
    let key : b.id ≡ j = get_key exam_id j b rows g in
    let x : is_excluded pk b.id ≡ false = rw key (kept j d) in
    ground (
      arith,
      room_free rows e.room (sitting_of e) pk j b room g x,
      course_free rows e b j clean g (λ q. d (q ∙ key)),
    )

abbrev Kept : List Semester → List ExamTimetable → Type 0
Kept semesters rows = Apart exam_id clashes rows × All (IsTimed semesters) rows

create_keeps :
    (semesters : List Semester) (rows rows' : List ExamTimetable)
    (course semester date start end : ℕ) (room : Option ℕ) (invigilators : List ℕ)
    (e : ExamTimetable)
    → create_exam_entry semesters rows course semester date start end room invigilators
      ≡ ok (rows', e)
    → Kept semesters rows
    → Kept semesters rows'
unfolding create_exam_entry
create_keeps semesters rows rows' course semester date start end room invigilators e h
      (free, timed) =
    let r : ExamTimetable = record {
      id = next_key exam_id rows;
      course = course;
      semester = semester;
      room = room;
      invigilators = invigilators;
      exam_date = date;
      start_time = start;
      end_time = end;
      is_published = false;
      published_at = none;
      published_by = none;
    } in
    let (s, found, h1) = bind_ok (find_semester semesters semester) _ h in
    let (order, h2) = raise_if_ok (not (ltb start end)) _ _ h1 in
    let (inside, h3) = raise_if_ok (is_outside s.exam_start s.exam_end date) _ _ h2 in
    let (here, h4) = raise_if_ok (exam_room_busy rows room (sitting_of r) none) _ _ h3 in
    let (_, h5) = raise_if_ok (invigilators_busy rows invigilators (sitting_of r) none) _ _ h4 in
    let (_, clean, h6) = bind_ok (clean_exam rows r) _ h5 in
    subst (Kept semesters) (ap (λ q. q.0) (ok_injective h6)) (
      Apart-insert exam_id clashes clashes_sym r rows
          (checked-Fits rows r none here clean (λ j d. refl)) free,
      ((ground (arith, order), (s, found, inside)), timed),
    )

update_keeps :
    (semesters : List Semester) (rows rows' : List ExamTimetable) (old e : ExamTimetable)
    (change : ExamChange)
    → get exam_id old.id rows ≡ some old
    → update_exam_entry semesters rows old change ≡ ok (rows', e)
    → Kept semesters rows
    → Kept semesters rows'
unfolding update_exam_entry
update_keeps semesters rows rows' old e change g h (free, timed) =
    let r = changed_exam old change in
    let (s, found, h1) = bind_ok (find_semester semesters old.semester) _ h in
    let (order, h2) = raise_if_ok (not (ltb r.start_time r.end_time)) _ _ h1 in
    let (inside, h3) = raise_if_ok (is_outside s.exam_start s.exam_end r.exam_date) _ _ h2 in
    let (here, h4) = raise_if_ok (exam_room_busy rows r.room (sitting_of r) (some r.id)) _ _ h3 in
    let (_, h5) =
      raise_if_ok (given_busy rows change.invigilator_ids (sitting_of r) (some r.id)) _ _ h4 in
    let (_, clean, h6) = bind_ok (clean_exam rows r) _ h5 in
    subst (Kept semesters) (ap (λ q. q.0) (ok_injective h6)) (
      Apart-update_row exam_id clashes clashes_sym r old rows g
          (checked-Fits rows r (some r.id) here clean (λ j d. ground (arith, d))) free,
      All-update_row exam_id (IsTimed semesters) r rows (ground (arith, order), (s, found, inside))
          timed,
    )

publish-key :
    (now semester : ℕ) (actor : Option ℕ) (e : ExamTimetable)
    → (publish_exam now semester actor e).id ≡ e.id
publish-key now semester actor e = ground arith

publish-clashes :
    (now semester : ℕ) (actor : Option ℕ) (a b : ExamTimetable)
    → clashes (publish_exam now semester actor a) (publish_exam now semester actor b) ≡ clashes a b
unfolding clashes takes
publish-clashes now semester actor a b = elim (Bool-cases (is_to_publish semester a)) [
  | inl p ↦ elim (Bool-cases (is_to_publish semester b)) [
    | inl q ↦ rw (p, q) refl
    | inr q ↦ rw (p, q) refl
  ]
  | inr p ↦ elim (Bool-cases (is_to_publish semester b)) [
    | inl q ↦ rw (p, q) refl
    | inr q ↦ rw (p, q) refl
  ]
]

publish-IsTimed :
    (semesters : List Semester) (now semester : ℕ) (actor : Option ℕ) (rows : List ExamTimetable)
    → All (IsTimed semesters) rows
    → All (IsTimed semesters) (map (publish_exam now semester actor) rows)
publish-IsTimed semesters now semester actor [] h = tt
publish-IsTimed semesters now semester actor (e ∷ rows) (h, rest) = (
  elim (Bool-cases (is_to_publish semester e)) [ inl p ↦ rw p h | inr p ↦ rw p h ],
  publish-IsTimed semesters now semester actor rows rest,
)

Step-keeps :
    (semesters : List Semester) {rows rows' : List ExamTimetable}
    → Step semesters rows rows'
    → Kept semesters rows
    → Kept semesters rows'
unfolding publish_exam_timetable
Step-keeps semesters (creates {rows} {rows'} course semester date start end room invigilators e h)
      k =
    create_keeps semesters rows rows' course semester date start end room invigilators e h k
Step-keeps semesters (updates {rows} {rows'} old e change g h) k =
    update_keeps semesters rows rows' old e change g h k
Step-keeps semesters (publishes {rows} now semester actor) (free, timed) = (
  Apart-map exam_id clashes (publish_exam now semester actor) (publish-key now semester actor)
      (publish-clashes now semester actor) rows free,
  publish-IsTimed semesters now semester actor rows timed,
)

Steps-keeps :
    (semesters : List Semester) {rows rows' : List ExamTimetable}
    → Steps semesters rows rows'
    → Kept semesters rows
    → Kept semesters rows'
Steps-keeps semesters steps k =
    Run-keeps (Step semesters) (Kept semesters) (λ a b s k. Step-keeps semesters s k) steps k

-- whether two exams are both on at a time of one date
abbrev pub together : ExamTimetable → ExamTimetable → (time : ℕ) → Bool
together a b time =
    (a.exam_date == b.exam_date)
    && (leb a.start_time time && ltb time a.end_time)
    && (leb b.start_time time && ltb time b.end_time)

room_at :
    (a b : ExamTimetable) (time : ℕ)
    → clashes a b ≡ false
    → (together a b time && share a.room b.room) ≡ false
unfolding clashes takes overlap
room_at a b time h = ground (arith, h)

course_once :
    (a b : ExamTimetable)
    → clashes a b ≡ false
    → ((a.course == b.course) && (a.semester == b.semester)) ≡ false
unfolding clashes
course_once a b h = ground (arith, h)

found_semester :
    (semesters : List Semester) (k : ℕ) (s : Semester)
    → find_semester semesters k ≡ ok s
    → get_semester semesters k ≡ ok s
unfolding find_semester
found_semester semesters k s h = ground (arith, h)

-- a date from the first to the last day of a period, if the period has both
abbrev pub IsWithin : (start end : Option ℕ) → ℕ → Type 0
IsWithin start end day =
    (start ≡ none)
    ⊎ ((end ≡ none)
        ⊎ ((first : ℕ) × (last : ℕ) × (start ≡ some first)
            × (end ≡ some last)
            × (first ≤ day)
            × (day ≤ last)))

inside_period :
    (start end : Option ℕ) (day : ℕ) → is_outside start end day ≡ false → IsWithin start end day
unfolding is_outside
inside_period none end day h = inl refl
inside_period (some a) none day h = inr (inl refl)
inside_period (some a) (some b) day h =
    inr (inr (a, b, refl, refl, ground (arith, h), ground (arith, h)))

-- After any sequence of creations, updates of stored exams and publications, from an empty timetable, two
-- different exams are never in one room at one time of a date nor of one course in one semester, and an
-- exam ends after it starts. If its semester has both the first and the last day of an examination
-- period, the date of the exam is from the first to the last.
pub exams-NoDoubleBooking :
    (semesters : List Semester) (rows : List ExamTimetable) (i j : ℕ) (a b : ExamTimetable)
    (time : ℕ)
    → Steps semesters [] rows
    → i ≢ j
    → get exam_id i rows ≡ some a
    → get exam_id j rows ≡ some b
    → ((together a b time && share a.room b.room) ≡ false)
      × (((a.course == b.course) && (a.semester == b.semester)) ≡ false)
      × (a.start_time < a.end_time)
      × ((s : Semester) × (get_semester semesters a.semester ≡ ok s)
          × IsWithin s.exam_start s.exam_end a.exam_date)
exams-NoDoubleBooking semesters rows i j a b time steps d g h =
    let (free, timed) = Steps-keeps semesters steps (Apart-nil exam_id clashes, tt) in
    let apart = free i j a b d g h in
    let (order, (s, found, inside)) = get-All exam_id (IsTimed semesters) i a rows g timed in
    (
      room_at a b time apart,
      course_once a b apart,
      order,
      (
        s,
        found_semester semesters a.semester s found,
        inside_period s.exam_start s.exam_end a.exam_date inside,
      ),
    )
