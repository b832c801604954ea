-- ===== src/Registry/Trail.antt =====
-- The trail of status changes tells the status of each student.
use mathlib.Core.Path.{subst}
use uni_acmis.Prelude.{
  highest-update_row, get-le-highest, ℕ, ◌≤◌, ◌<◌, ◌≡◌, refl, sym, ◌∙◌, Option, none, some, is_none,
  some_injective, true, false, ◌&&◌, List, [], ◌∷◌, arith, All, ◌==◌, ==_iff, if◌then◌else◌,
  Bool-cases, inl, inr, get, get_key, get-update_row, get-update_row_away, next_key, highest_key,
  update_row,
}
use uni_acmis.Core.Sequences.{IdSequence}
use uni_acmis.Registry.{
  Student, StudentStatus, active, StudentStatusHistory, Registry, student_key, is_graduated_status,
}
use uni_acmis.Registry.Status.{allowed}

-- the status that a trail, latest entry first, gives a student
unfoldable pub latest : (student : ℕ) → List StudentStatusHistory → Option StudentStatus
latest k [] = none
latest k (e ∷ history) =
    let rest = latest k history in if e.student == k then some e.to_status else rest

-- a student starts as active, and moves as the transitions allow
abbrev pub MayMove : Option StudentStatus → StudentStatus → Type 0
MayMove none to = to ≡ active
MayMove (some from) to = allowed from to ≡ true

-- each entry starts where the one before it of the same student ended
abbrev pub Chained : List StudentStatusHistory → Type 0
Chained [] = Unit
Chained (e ∷ history) =
    (e.from_status ≡ latest e.student history) × MayMove e.from_status e.to_status × Chained history

-- what holds of a stored student
abbrev pub InTrail : List StudentStatusHistory → Student → Type 0
InTrail history s =
    (latest s.id history ≡ some s.status)
    × ((is_graduated_status s.status && is_none s.graduated_on) ≡ false)

abbrev pub Known : List Student → StudentStatusHistory → Type 0
Known students e = e.student ≤ highest_key student_key students

pub record Kept (r : Registry) : Type 0 where
  pub current : (k : ℕ) (s : Student) → get student_key k r.students ≡ some s → InTrail r.history s
  pub chained : Chained r.history
  pub known : All (Known r.students) r.history

latest_unknown :
    (students : List Student) (k : ℕ) (history : List StudentStatusHistory)
    → All (Known students) history
    → highest_key student_key students < k
    → latest k history ≡ none
unfolding latest
latest_unknown students k [] a h = refl
latest_unknown students k (e ∷ history) a h =
    ground (arith, latest_unknown students k history a.1 h, a.0)

Known-above :
    (students students' : List Student) (history : List StudentStatusHistory)
    → highest_key student_key students ≤ highest_key student_key students'
    → All (Known students) history
    → All (Known students') history
Known-above students students' [] h a = tt
Known-above students students' (e ∷ history) h a =
    (omega (arith, h, a.0), Known-above students students' history h a.1)

-- an entry of another student leaves a trail as it was
latest_away :
    (e : StudentStatusHistory) (history : List StudentStatusHistory) (s : Student)
    → (e.student == s.id) ≡ false
    → InTrail history s
    → InTrail (e ∷ history) s
unfolding latest
latest_away e history s off (l, g) = (rw off l, g)

-- a new row and its first entry
pub create-Kept :
    (r : Registry) (s : Student) (e : StudentStatusHistory) (sequences : List IdSequence)
    → s.id ≡ next_key student_key r.students
    → s.status ≡ active
    → e.student ≡ s.id
    → e.from_status ≡ none
    → e.to_status ≡ s.status
    → Kept r
    → Kept (record { students = s ∷ r.students; history = e ∷ r.history; sequences = sequences })
unfolding latest
create-Kept r s e sequences new is_new of from to kept =
    let unknown =
      latest_unknown r.students e.student r.history kept.known (ground (arith, of, new)) in
    record {
      current = λ k t g. elim (Bool-cases (s.id == k)) [
        | inl here ↦
            let same : s ≡ t = some_injective (rw here at g) in
            subst (InTrail (e ∷ r.history)) same (ground (arith, of, to), ground (arith, is_new))
        | inr away ↦
            let g' = rw away at g in
            let key = get_key student_key k t r.students g' in
            latest_away e r.history t (ground (arith, of, away, key)) (kept.current k t g')
      ];
      chained = (
        from ∙ sym unknown,
        subst (λ o. MayMove o e.to_status) (sym from) (to ∙ is_new),
        kept.chained,
      );
      known = (
        ground (arith, of),
        Known-above r.students (s ∷ r.students) r.history (ground (arith, new)) kept.known,
      );
    }

-- a saved row and the entry of its change
pub change-Kept :
    (r : Registry) (old s : Student) (e : StudentStatusHistory)
    → get student_key old.id r.students ≡ some old
    → s.id ≡ old.id
    → e.student ≡ old.id
    → e.from_status ≡ some old.status
    → e.to_status ≡ s.status
    → allowed old.status s.status ≡ true
    → (is_graduated_status s.status && is_none s.graduated_on) ≡ false
    → Kept r
    → Kept (record r { students = update_row student_key s r.students; history = e ∷ r.history })
unfolding latest
change-Kept r old s e stored id of from to may dated kept =
    let stored' : get student_key s.id r.students ≡ some old =
      subst (λ k. get student_key k r.students ≡ some old) (sym id) stored in
    let before = kept.current old.id old stored in
    record {
      current = λ k t g. elim (Bool-cases (s.id == k)) [
        | inl here ↦
            let ek = (==_iff s.id k).0 here in
            let saved =
              subst (λ j. get student_key j (update_row student_key s r.students) ≡ some s) ek
                (get-update_row student_key s old r.students stored') in
            let same : s ≡ t = some_injective (sym saved ∙ g) in
            subst (InTrail (e ∷ r.history)) same (ground (arith, of, to, id), dated)
        | inr away ↦
            let g' = sym (get-update_row_away student_key s k r.students away) ∙ g in
            let key = get_key student_key k t r.students g' in
            latest_away e r.history t (ground (arith, of, away, key, id)) (kept.current k t g')
      ];
      chained = (
        from ∙ sym (subst (λ k. latest k r.history ≡ some old.status) (sym of) before.0),
        subst (λ o. MayMove o e.to_status) (sym from)
            (subst (λ x. allowed old.status x ≡ true) (sym to) may),
        kept.chained,
      );
      known = (
        omega (
          arith,
          of,
          highest-update_row student_key s r.students,
          get-le-highest student_key old.id old r.students stored,
        ),
        Known-above r.students (update_row student_key s r.students) r.history
            (omega (arith, highest-update_row student_key s r.students)) kept.known,
      );
    }
