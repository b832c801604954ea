-- ===== src/Attendance/Register.antt =====
-- One record of a student in each session.
use mathlib.Core.Path.{subst}
use uni_acmis.Prelude.{
  in_list, distinct, ℕ, ◌≤◌, ◌≡◌, refl, ap, Option, none, some, or_else, Bool, true, false, not,
  List, [], ◌∷◌, arith, All, keep, map, count_if, count_if-keeps, find_first, get_found, update_row,
  UniqueKeys, UniqueKeys-insert, UniqueKeys-update_row, ltb, ◌==◌, ==_iff, Bool-cases, Option-cases,
  inl, inr, ok, raise_if_ok, bind_ok, ok_injective, text_length,
}
use uni_acmis.Timetabling.Classes.{TimetableEntry, entry_context}
use uni_acmis.Enrollment.{Registrations}
use uni_acmis.Enrollment.Lookups.{active_registration_ids}
use uni_acmis.Attendance.{
  SessionRecord, SessionMark, record_id, same_session, marked, new_record, save_mark, save_marks,
  record_session, context_of, invalid_ids, is_empty,
}

-- each registration has at most one record in a session
abbrev pub OneRecord : List SessionRecord → Type 0
OneRecord rows = UniqueKeys record_id rows × ((e d g : ℕ) → count_if (same_session e d g) rows ≤ 1)

-- no record is lost
abbrev Grown : List SessionRecord → List SessionRecord → Type 0
Grown rows rows' =
    (e d g : ℕ) → count_if (same_session e d g) rows ≤ count_if (same_session e d g) rows'

count_none :
    (p : SessionRecord → Bool) (rows : List SessionRecord)
    → find_first p rows ≡ none
    → count_if p rows ≡ 0
count_none p [] h = refl
count_none p (r ∷ rows) h = ground (arith, count_none p rows)

count_found :
    (p : SessionRecord → Bool) (r : SessionRecord) (rows : List SessionRecord)
    → find_first p rows ≡ some r
    → 1 ≤ count_if p rows
count_found p r [] h = ground arith
count_found p r (x ∷ rows) h = ground (arith, count_found p r rows)

-- a record of a session that has none of the registration
one_more :
    (rows : List SessionRecord) (r : SessionRecord) (e d g : ℕ)
    → count_if (same_session r.timetable_entry r.session_date r.registration) rows ≡ 0
    → count_if (same_session e d g) rows ≤ 1
    → count_if (same_session e d g) (r ∷ rows) ≤ 1
one_more rows r e d g absent one = elim (Bool-cases (same_session e d g r)) [
  | inr away ↦ ground (arith, away, one)
  | inl here ↦
      let e1 : r.timetable_entry ≡ e = ground (arith, here) in
      let e2 : r.session_date ≡ d = ground (arith, here) in
      let e3 : r.registration ≡ g = ground (arith, here) in
      let absent' : count_if (same_session e d g) rows ≡ 0 = rw (e1, e2, e3) at absent in
      ground (arith, absent')
]

-- what a step of the loop keeps and adds
abbrev Recorded : (e d g : ℕ) → List SessionRecord → List SessionRecord → Type 0
Recorded e d g rows rows' =
    OneRecord rows' × Grown rows rows' × (1 ≤ count_if (same_session e d g) rows')

update_keeps :
    (e d : ℕ) (actor : Option ℕ) (rows : List SessionRecord) (m : SessionMark) (old : SessionRecord)
    → find_first (same_session e d m.registration_id) rows ≡ some old
    → OneRecord rows
    → Recorded e d m.registration_id rows (update_row record_id (marked m actor old) rows)
update_keeps e d actor rows m old f (u, one) =
    let r = marked m actor old in
    let g = get_found record_id (same_session e d m.registration_id) old rows u f in
    let kept : (x y z : ℕ)
        → count_if (same_session x y z) (update_row record_id r rows)
          ≡ count_if (same_session x y z) rows =
      λ x y z. count_if-keeps record_id (same_session x y z) r old rows u g refl in
    (
      (UniqueKeys-update_row record_id r rows u, λ x y z. omega (arith, kept x y z, one x y z)),
      λ x y z. omega (arith, kept x y z),
      omega (
        arith,
        kept e d m.registration_id,
        count_found (same_session e d m.registration_id) old rows f,
      ),
    )

insert_keeps :
    (e d : ℕ) (actor : Option ℕ) (rows : List SessionRecord) (m : SessionMark)
    → find_first (same_session e d m.registration_id) rows ≡ none
    → OneRecord rows
    → Recorded e d m.registration_id rows
        (marked m actor (new_record rows e d m.registration_id) ∷ rows)
insert_keeps e d actor rows m f (u, one) =
    let r = marked m actor (new_record rows e d m.registration_id) in
    let p = same_session e d m.registration_id in
    (
      (
        UniqueKeys-insert record_id r rows refl u,
        λ x y z. one_more rows r x y z (count_none p rows f) (one x y z),
      ),
      λ x y z. ground arith,
      ground arith,
    )

save_mark_keeps :
    (e d : ℕ) (actor : Option ℕ) (rows rows' : List SessionRecord) (m : SessionMark)
    (r : SessionRecord)
    → save_mark e d actor rows m ≡ ok (rows', r)
    → OneRecord rows
    → Recorded e d m.registration_id rows rows'
unfolding save_mark
save_mark_keeps e d actor rows rows' m r h one =
    let g = m.registration_id in
    let (short, h1) = raise_if_ok (ltb 255 (text_length (or_else m.notes ""))) _ _ h in
    elim (Option-cases (find_first (same_session e d g) rows)) [
      | inr (old, f) ↦
          subst (Recorded e d g rows) (ap (λ q. q.0) (ok_injective (rw f at h1)))
            (update_keeps e d actor rows m old f one)
      | inl f ↦
          subst (Recorded e d g rows) (ap (λ q. q.0) (ok_injective (rw f at h1)))
            (insert_keeps e d actor rows m f one)
    ]

-- what the loop keeps and adds
abbrev AllRecorded : (e d : ℕ) → List SessionMark → List SessionRecord → Type 0
AllRecorded e d marks rows = All (λ m. count_if (same_session e d m.registration_id) rows ≡ 1) marks

save_marks_keep :
    (e d : ℕ) (actor : Option ℕ) (marks : List SessionMark) (rows rows' : List SessionRecord)
    (rs : List SessionRecord)
    → save_marks e d actor rows marks ≡ ok (rows', rs)
    → OneRecord rows
    → OneRecord rows' × Grown rows rows' × AllRecorded e d marks rows'
unfolding save_marks
save_marks_keep e d actor [] rows rows' rs h one =
    subst (λ x. OneRecord x × Grown rows x × AllRecorded e d [] x) (ap (λ q. q.0) (ok_injective h))
      (one, (λ x y z. omega arith), tt)
save_marks_keep e d actor (m ∷ marks) rows rows' rs h one =
    let (saved, s, h1) = bind_ok (save_mark e d actor rows m) _ h in
    let (rest, t, h2) = bind_ok (save_marks e d actor saved.0 marks) _ h1 in
    let (one1, grown1, there) = save_mark_keeps e d actor rows saved.0 m saved.1 s one in
    let (one2, grown2, all) = save_marks_keep e d actor marks saved.0 rest.0 rest.1 t one1 in
    let g = m.registration_id in
    subst (λ x. OneRecord x × Grown rows x × AllRecorded e d (m ∷ marks) x)
      (ap (λ q. q.0) (ok_injective h2))
      (
        one2,
        (λ x y z. omega (arith, grown1 x y z, grown2 x y z)),
        (omega (arith, there, grown2 e d g, one2.1 e d g), all),
      )

empty_list : (ks : List ℕ) → not (is_empty ks) ≡ false → ks ≡ []
empty_list [] h = refl
empty_list (k ∷ ks) h = ground arith

-- a test that keeps nothing of a list fails on its members
none_kept :
    (p : ℕ → Bool) (k : ℕ) (ks : List ℕ) → keep p ks ≡ [] → in_list k ks ≡ true → p k ≡ false
none_kept p k [] h here = ground arith
none_kept p k (x ∷ ks) h here = elim (Bool-cases (p x)) [
  | inl kept ↦ ground (arith, kept, h)
  | inr out ↦ elim (Bool-cases (x == k)) [
    | inl same ↦ subst (λ y. p y ≡ false) ((==_iff x k).0 same) out
    | inr other ↦ none_kept p k ks (rw out at h) (rw other at here)
  ]
]

head-distinct : (x : ℕ) (ks : List ℕ) → in_list x (distinct (x ∷ ks)) ≡ true
head-distinct x ks = elim (Bool-cases (in_list x (distinct ks))) [
  | inl e ↦ rw (e, e) refl
  | inr e ↦ ground (arith, e)
]

in_distinct : (k : ℕ) (ks : List ℕ) → in_list k ks ≡ true → in_list k (distinct ks) ≡ true
in_distinct k [] h = h
in_distinct k (x ∷ ks) h = elim (Bool-cases (x == k)) [
  | inl same ↦
      subst (λ y. in_list y (distinct (x ∷ ks)) ≡ true) ((==_iff x k).0 same) (head-distinct x ks)
  | inr other ↦ ground (arith, other, in_distinct k ks (rw other at h))
]

-- the marks of a list whose registrations are all in a list of valid ones
abbrev pub AllValid : List ℕ → List SessionMark → Type 0
AllValid valid_ids marks = All (λ m. in_list m.registration_id valid_ids ≡ true) marks

in_list-map :
    (marks : List SessionMark) (valid_ids : List ℕ)
    → ((k : ℕ) → in_list k (map (λ m. m.registration_id) marks) ≡ true → in_list k valid_ids ≡ true)
    → AllValid valid_ids marks
in_list-map [] valid_ids h = tt
in_list-map (m ∷ marks) valid_ids h = (
  h m.registration_id (ground arith),
  in_list-map marks valid_ids (λ k here. h k (ground (arith, here))),
)

-- no invalid registration is left
invalid_ids-AllValid :
    (valid_ids : List ℕ) (marks : List SessionMark)
    → not (is_empty (invalid_ids valid_ids marks)) ≡ false
    → AllValid valid_ids marks
invalid_ids-AllValid valid_ids marks h = in_list-map marks valid_ids (λ k here.
    let ids = distinct (map (λ m. m.registration_id) marks) in
    let out =
      none_kept (λ i. not (in_list i valid_ids)) k ids (empty_list _ h) (in_distinct k _ here) in
    ground (arith, out))

found_context :
    (entries : List TimetableEntry) (e : ℕ) (context : ℕ × ℕ)
    → context_of entries e ≡ ok context
    → entry_context entries e ≡ ok context
unfolding context_of
found_context entries e context h = ground (arith, h)

-- A register that is recorded names only registrations that are active for its class, each of them then
-- has exactly one record in the session, no session loses a record of a registration, and no registration
-- has two in one session, if none had two before.
pub record_session-OneRecord :
    (entries : List TimetableEntry) (registrations : Registrations)
    (rows rows' rs : List SessionRecord) (e d : ℕ) (marks : List SessionMark) (actor : Option ℕ)
    → OneRecord rows
    → record_session entries registrations rows e d marks actor ≡ ok (rows', rs)
    → ((entry : ℕ × ℕ) × (entry_context entries e ≡ ok entry)
        × AllValid (active_registration_ids registrations entry.0 entry.1) marks)
      × OneRecord rows'
      × Grown rows rows'
      × AllRecorded e d marks rows'
unfolding record_session
record_session-OneRecord entries registrations rows rows' rs e d marks actor one h =
    let (entry, found, h1) = bind_ok (context_of entries e) _ h in
    let valid_ids = active_registration_ids registrations entry.0 entry.1 in
    let (valid, h2) = raise_if_ok (not (is_empty (invalid_ids valid_ids marks))) _ _ h1 in
    let (one1, grown, all) = save_marks_keep e d actor marks rows rows' rs h2 one in
    (
      (entry, found_context entries e entry found, invalid_ids-AllValid valid_ids marks valid),
      one1,
      grown,
      all,
    )
