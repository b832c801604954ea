-- ===== src/Registry/Moves.antt =====
-- Every sequence of operations keeps the trail.
use mathlib.Core.Path.{subst}
use uni_acmis.Prelude.{
  Run, Run-keeps, ℕ, ◌≡◌, refl, ap, String, Option, none, some, is_none, false, ◌&&◌, not, List, [],
  arith, Bool-cases, inl, inr, get, next_key, is_blank, or_else, ok, raise_if_ok, bind_ok,
  ok_injective,
}
use uni_acmis.Core.Sequences.{IdSequence}
use uni_acmis.Registry.{
  Student, StudentStatus, StudentStatusHistory, Registry, Reference, student_key,
  is_graduated_status, is_clean_student,
}
use uni_acmis.Registry.Creation.{
  NewStudent, identifier_for, student_of, first_entry, create_student,
}
use uni_acmis.Registry.Status.{
  same_status, is_terminal, allowed, graduation, apply_status, change_status,
}
use uni_acmis.Registry.Trail.{latest, Chained, Kept, create-Kept, change-Kept}

pub data Step (reference : Reference) : Registry → Registry → Type 0 where
  creates :
      {r r' : Registry} (today : ℕ) (n : NewStudent) (actor : Option ℕ) (reason : String)
      (s : Student)
      → create_student reference today r n actor reason ≡ ok (r', s)
      → Step reference r r'
  changes :
      {r r' : Registry} (today : ℕ) (old s : Student) (new_status : StudentStatus) (reason : String)
      (actor : Option ℕ) (effective_date : Option ℕ) (text : String)
      → get student_key old.id r.students ≡ some old
      → change_status reference today r old new_status reason actor effective_date text ≡ ok (r', s)
      → Step reference r r'

abbrev pub Steps : (reference : Reference) → Registry → Registry → Type 0
Steps reference = Run (Step reference)

create_student-Kept :
    (reference : Reference) (today : ℕ) (r r' : Registry) (n : NewStudent) (actor : Option ℕ)
    (reason : String) (s : Student)
    → create_student reference today r n actor reason ≡ ok (r', s)
    → Kept r
    → Kept r'
unfolding create_student
create_student-Kept reference today r r' n actor reason s h kept =
    let (identified, _, h1) = bind_ok (identifier_for reference r.sequences n) _ h in
    let t = student_of today (next_key student_key r.students) identified.1 n in
    let (_, h2) = raise_if_ok (not (is_clean_student reference r.students t)) _ _ h1 in
    subst Kept (ap (λ q. q.0) (ok_injective h2)) (
      create-Kept r t (first_entry t reason today actor) identified.0 refl refl refl refl refl kept)

graduation_dated :
    (new_status : StudentStatus) (effective : ℕ) (o : Option ℕ)
    → (is_graduated_status new_status && is_none (graduation new_status effective o)) ≡ false
graduation_dated new_status effective none = ground arith
graduation_dated new_status effective (some day) = ground arith

apply_status-Kept :
    (reference : Reference) (r r' : Registry) (old s : Student) (new_status : StudentStatus)
    (reason : String) (actor : Option ℕ) (effective : ℕ) (text : String)
    → get student_key old.id r.students ≡ some old
    → apply_status reference r old new_status reason actor effective text ≡ ok (r', s)
    → Kept r
    → Kept r'
unfolding apply_status
apply_status-Kept reference r r' old s new_status reason actor effective text g h kept =
    let (_, h1) = raise_if_ok (is_terminal old.status) _ _ h in
    let (may, h2) = raise_if_ok (not (allowed old.status new_status)) _ _ h1 in
    let t : Student = record old {
      status = new_status;
      graduated_on = graduation new_status effective old.graduated_on;
    } in
    let e : StudentStatusHistory = record {
      student = old.id;
      from_status = some old.status;
      to_status = new_status;
      reason = reason;
      effective_date = effective;
      changed_by = actor;
      reference = text;
    } in
    let (_, h3) = raise_if_ok (not (is_clean_student reference r.students t)) _ _ h2 in
    subst Kept (ap (λ q. q.0) (ok_injective h3)) (
      change-Kept r old t e g refl refl refl refl (ground (arith, may))
        (graduation_dated new_status effective old.graduated_on) kept)

change_status-Kept :
    (reference : Reference) (today : ℕ) (r r' : Registry) (old s : Student)
    (new_status : StudentStatus) (reason : String) (actor effective : Option ℕ) (text : String)
    → get student_key old.id r.students ≡ some old
    → change_status reference today r old new_status reason actor effective text ≡ ok (r', s)
    → Kept r
    → Kept r'
unfolding change_status
change_status-Kept reference today r r' old s new_status reason actor effective text g h kept =
    let (_, h1) = raise_if_ok (is_blank reason) _ _ h in
    elim (Bool-cases (same_status new_status old.status)) [
      | inl same ↦ subst Kept (ap (λ q. q.0) (ok_injective (rw same at h1))) kept
      | inr other ↦
          apply_status-Kept reference r r' old s new_status reason actor (or_else effective today)
            text g (rw other at h1) kept
    ]

Step-Kept : (reference : Reference) {r r' : Registry} → Step reference r r' → Kept r → Kept r'
Step-Kept reference (creates {r} {r'} today n actor reason s h) k =
    create_student-Kept reference today r r' n actor reason s h k
Step-Kept reference (changes {r} {r'} today old s new_status reason actor effective text g h) k =
    change_status-Kept reference today r r' old s new_status reason actor effective text g h k

Steps-Kept : (reference : Reference) {r r' : Registry} → Steps reference r r' → Kept r → Kept r'
Steps-Kept reference steps k =
    Run-keeps (Step reference) Kept (λ a b s k. Step-Kept reference s k) steps k

abbrev pub empty_registry : List IdSequence → Registry
empty_registry sequences = record { students = []; history = []; sequences = sequences }

empty-Kept : (sequences : List IdSequence) → Kept (empty_registry sequences)
empty-Kept sequences = record { current = λ k s g. ground arith; chained = tt; known = tt }

-- After any sequence of admissions and of status changes of stored students, from no students, the trail
-- is a chain of allowed moves that starts with the status active, its latest entry of a student has the
-- status of the student's row, and a graduate has a date of graduation.
pub trail_tells_status :
    (reference : Reference) (sequences : List IdSequence) (r : Registry) (k : ℕ) (s : Student)
    → Steps reference (empty_registry sequences) r
    → get student_key k r.students ≡ some s
    → Chained r.history
      × (latest s.id r.history ≡ some s.status)
      × ((is_graduated_status s.status && is_none s.graduated_on) ≡ false)
trail_tells_status reference sequences r k s steps g =
    let kept = Steps-Kept reference steps (empty-Kept sequences) in
    let (now, dated) = kept.current k s g in (kept.chained, now, dated)
