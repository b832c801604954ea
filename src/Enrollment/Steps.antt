-- ===== src/Enrollment/Steps.antt =====
-- Sequences of registrations, drops and completions, and the limit that they keep.
use mathlib.Core.Path.{subst}
use uni_acmis.Prelude.{
  Run, Run-keeps, ℕ, ◌≤◌, ◌≡◌, ◌⊎◌, refl, sym, ◌∙◌, ap, String, Option, none, some, false, not,
  List, [], ◌∷◌, arith, ◌==◌, ==_iff, get, ok, bind_ok, raise_if_ok, ok_injective, UniqueKeys,
  UniqueKeys-update_row, update_row, Bool-cases, inl, inr, is_blank,
}
use uni_acmis.Academics.Calendar.{get_semester, is_add_drop_open}
use uni_acmis.Curriculum.{Course, total_credits}
use uni_acmis.Enrollment.{
  CourseRegistration, Registrations, Catalogue, Actor, reg_id, is_registered, is_completed,
  is_active, active_credit_load, find_existing, pk_of, save, get_programme_id, limits_for,
  register_course, lift_calendar,
}
use uni_acmis.Enrollment.Changes.{drop_course, record_prior_completion}
use uni_acmis.Enrollment.Register.{Accepted, register_course-Accepted}
use uni_acmis.Enrollment.Limits.{
  Saved, save-Saved, save_inactive, weight, credits_counted, WithinLimits,
}

-- one operation of the service on the table, on a stored row where it takes one
pub data Step (db : Catalogue) : Registrations → Registrations → Type 0 where
  registers :
      {rows rows' : Registrations} (now student_id course_id : ℕ) (semester_id : Option ℕ)
      (actor : Option Actor) (reason : String) (r : CourseRegistration)
      → register_course db now rows student_id course_id semester_id actor reason ≡ ok (rows', r)
      → Step db rows rows'
  drops :
      {rows rows' : Registrations} (now : ℕ) (old r : CourseRegistration) (reason : String)
      → get reg_id old.id rows ≡ some old
      → drop_course db now rows old reason ≡ ok (rows', r)
      → Step db rows rows'
  completes :
      {rows rows' : Registrations} (now : ℕ) (old r : CourseRegistration) (actor : Option Actor)
      (reason : String)
      → get reg_id old.id rows ≡ some old
      → record_prior_completion now rows old actor reason ≡ ok (rows', r)
      → Step db rows rows'

abbrev pub Steps : (db : Catalogue) → Registrations → Registrations → Type 0
Steps db = Run (Step db)

abbrev Kept : Catalogue → Registrations → Type 0
Kept db rows = UniqueKeys reg_id rows × WithinLimits db rows

-- a weight that is not zero is that of an active row
weight_zero_or_of :
    (courses : List _) (s m : ℕ) (r : CourseRegistration)
    → (weight courses s m r ≡ 0) ⊎ ((r.student ≡ s) × (r.semester ≡ m))
unfolding is_active
weight_zero_or_of courses s m r = elim (Bool-cases (r.student == s)) [
  | inr e ↦ inl (rw e refl)
  | inl e ↦ elim (Bool-cases (r.semester == m)) [
    | inr f ↦ inl (rw (e, f) refl)
    | inl f ↦ inr ((==_iff r.student s).0 e, (==_iff r.semester m).0 f)
  ]
]

weight_bound :
    (courses : List Course) (s m c : ℕ) (r : CourseRegistration)
    → r.course ≡ c
    → weight courses s m r ≤ total_credits courses (c ∷ [])
weight_bound courses s m c r e =
    subst (λ x. weight courses s m r ≤ total_credits courses (x ∷ [])) e
      (ground (arith, credits_counted courses r.course))

register_keeps :
    (db : Catalogue) (now : ℕ) (rows rows' : Registrations) (student_id course_id : ℕ)
    (semester_id : Option ℕ) (actor : Option Actor) (reason : String) (r : CourseRegistration)
    → Accepted db now rows student_id course_id semester_id actor reason rows' r
    → Kept db rows
    → Kept db rows'
register_keeps db now rows rows' s c semester_id actor reason r a (u, within) =
    let m = a.semester.id in
    let saved : Saved db.courses rows rows' s c m (pk_of (find_existing rows s c m)) r =
      subst (λ x. Saved db.courses rows x s c m (pk_of (find_existing rows s c m)) r) (sym a.saved)
        (subst
          (λ x.
            Saved db.courses rows (save (find_existing rows s c m) x rows) s c m
              (pk_of (find_existing rows s c m)) x)
          (sym a.row)
          (save-Saved db.courses rows (find_existing rows s c m) _ s c m actor reason u refl
            a.not_existing)) in
    let same : (p : ℕ) (l : ℕ × ℕ)
        → get_programme_id db.students s ≡ ok p
        → limits_for db.programmes p ≡ ok l
        → active_credit_load db.courses rows' s m none ≤ l.1 =
      λ p l e f.
        let g : a.limits ≡ l = ok_injective (
          sym a.limits_of
          ∙ ap (limits_for db.programmes) (ok_injective (sym a.programme_of ∙ e))
          ∙ f) in
        let b : weight db.courses s m r ≤ total_credits db.courses (c ∷ []) =
          weight_bound db.courses s m c r saved.row.1 in
        subst (λ x. active_credit_load db.courses rows' s m none ≤ x.1) g
          (omega (arith, saved.load s m, saved.excluded, a.within_limit, b)) in
    (
      saved.unique,
      λ s' m' p l e f. elim (weight_zero_or_of db.courses s' m' r) [
        | inl z ↦ omega (arith, saved.load s' m', within s' m' p l e f, z)
        | inr q ↦
            let es : s ≡ s' = sym saved.row.0 ∙ q.0 in
            let em : m ≡ m' = sym saved.row.2 ∙ q.1 in
            subst (λ x. active_credit_load db.courses rows' x m' none ≤ l.1) es
              (subst (λ x. active_credit_load db.courses rows' s x none ≤ l.1) em
                (same p l (ap (get_programme_id db.students) es ∙ e) f))
      ],
    )

inactive_keeps :
    (db : Catalogue) (rows : Registrations) (r old : CourseRegistration)
    → get reg_id r.id rows ≡ some old
    → is_registered r.status ≡ false
    → Kept db rows
    → Kept db (update_row reg_id r rows)
inactive_keeps db rows r old g h (u, within) = (
  UniqueKeys-update_row reg_id r rows u,
  λ s m p l e f. omega (arith, save_inactive db.courses rows s m r old u g h, within s m p l e f),
)

drop_course-row :
    (db : Catalogue) (now : ℕ) (rows rows' : Registrations) (old r : CourseRegistration)
    (reason : String)
    → drop_course db now rows old reason ≡ ok (rows', r)
    → (r.id ≡ old.id) × (is_registered r.status ≡ false) × (rows' ≡ update_row reg_id r rows)
unfolding drop_course
drop_course-row db now rows rows' old r reason h =
    let (a, h1) = raise_if_ok (is_blank reason) _ _ h in
    let (b, h2) = raise_if_ok (not (is_registered old.status)) _ _ h1 in
    let (semester, c, h3) = bind_ok (lift_calendar (get_semester db.semesters old.semester)) _ h2 in
    let (d, h4) = raise_if_ok (not (is_add_drop_open db.semesters (some semester) now)) _ _ h3 in
    let e = ok_injective h4 in
    (
      ap (λ q. q.1.id) (sym e),
      ap (λ q. is_registered q.1.status) (sym e),
      ap (λ q. q.0) (sym e) ∙ ap (λ q. update_row reg_id q.1 rows) e,
    )

record_prior_completion-row :
    (now : ℕ) (rows rows' : Registrations) (old r : CourseRegistration) (actor : Option Actor)
    (reason : String)
    → record_prior_completion now rows old actor reason ≡ ok (rows', r)
    → (rows' ≡ rows)
      ⊎ ((r.id ≡ old.id) × (is_registered r.status ≡ false) × (rows' ≡ update_row reg_id r rows))
unfolding record_prior_completion
record_prior_completion-row now rows rows' old r actor reason h =
    let (a, h1) = raise_if_ok (is_blank reason) _ _ h in
    elim (Bool-cases (is_completed old.status)) [
      | inl c ↦ inl (ap (λ q. q.0) (sym (ok_injective (rw c at h1))))
      | inr c ↦
          let e = ok_injective (rw c at h1) in
          inr (
            ap (λ q. q.1.id) (sym e),
            ap (λ q. is_registered q.1.status) (sym e),
            ap (λ q. q.0) (sym e) ∙ ap (λ q. update_row reg_id q.1 rows) e,
          )
    ]

save_keeps :
    (db : Catalogue) (rows rows' : Registrations) (r old : CourseRegistration)
    → get reg_id old.id rows ≡ some old
    → (r.id ≡ old.id) × (is_registered r.status ≡ false) × (rows' ≡ update_row reg_id r rows)
    → Kept db rows
    → Kept db rows'
save_keeps db rows rows' r old g (e, h, saved) k =
    subst (Kept db) (sym saved)
      (inactive_keeps db rows r old (subst (λ x. get reg_id x rows ≡ some old) (sym e) g) h k)

Step-keeps :
    (db : Catalogue) {rows rows' : Registrations}
    → Step db rows rows'
    → Kept db rows
    → Kept db rows'
Step-keeps db (registers {rows} {rows'} now s c m actor reason r h) k =
    register_keeps db now rows rows' s c m actor reason r
      (register_course-Accepted db now rows s c m actor reason rows' r h) k
Step-keeps db (drops {rows} {rows'} now old r reason g h) k =
    save_keeps db rows rows' r old g (drop_course-row db now rows rows' old r reason h) k
Step-keeps db (completes {rows} {rows'} now old r actor reason g h) k =
    elim (record_prior_completion-row now rows rows' old r actor reason h) [
      | inl e ↦ subst (Kept db) (sym e) k
      | inr q ↦ save_keeps db rows rows' r old g q k
    ]

Steps-keeps :
    (db : Catalogue) {rows rows' : Registrations}
    → Steps db rows rows'
    → Kept db rows
    → Kept db rows'
Steps-keeps db steps k = Run-keeps (Step db) (Kept db) (λ a b s k. Step-keeps db s k) steps k

-- Whatever sequence of registrations, drops and recorded completions succeeds on a table with unique
-- keys and every load within its limit, by whomever and with whatever overrides of holds, it leaves
-- no student with more active credits in a semester than the student's programme allows.
pub load_stays-WithinLimits :
    (db : Catalogue) (rows rows' : Registrations)
    → UniqueKeys reg_id rows
    → WithinLimits db rows
    → Steps db rows rows'
    → WithinLimits db rows'
load_stays-WithinLimits db rows rows' u w steps = (Steps-keeps db steps (u, w)).1
