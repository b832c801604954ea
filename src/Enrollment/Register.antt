-- ===== src/Enrollment/Register.antt =====
-- What a successful registration has passed.
use mathlib.Core.Path.{subst}
use uni_acmis.Prelude.{
  find_first-holds, Bool, ◌&&◌, ◌==◌, none, ℕ, ◌+◌, ◌≤◌, ◌≡◌, refl, sym, ◌∙◌, ap, ◌⊎◌, inl, inr,
  String, Option, some, true, false, not, List, [], ◌∷◌, arith, ltb, get, Result, ok, err, bind_ok,
  raise_if_ok, is_none, ok_injective,
}
use uni_acmis.Core.Holds.{Hold, blocking_holds}
use uni_acmis.Academics.Calendar.{Semester, is_registration_open, require_registration_open}
use uni_acmis.Curriculum.{unmet_prerequisites, total_credits}
use uni_acmis.Enrollment.{
  CourseRegistration, Registrations, Catalogue, Actor, lift_calendar, resolve_semester,
  get_programme_id, passed_course_ids, active_credit_load, find_existing, check_existing,
  check_holds, can_override, actor_pk, pk_of, new_registration, note_override, start_row,
  limits_for, save, register_course, is_empty,
}

require_open :
    (semesters : List Semester) (s s' : Semester) (now : ℕ)
    → require_registration_open semesters (some s) now ≡ ok s'
    → (s ≡ s') × (is_registration_open semesters (some s) now ≡ true)
unfolding require_registration_open
require_open semesters s s' now h = ground arith

lift_ok : {A : Type 0} (m : Result _ A) (a : A) → lift_calendar m ≡ ok a → m ≡ ok a
lift_ok (ok b) a h = ground arith
lift_ok (err e) a h = ground arith

is_empty_nil : {A : Type 0} (xs : List A) → not (is_empty xs) ≡ false → xs ≡ []
is_empty_nil [] h = refl
is_empty_nil (x ∷ xs) h = ground arith

-- everything that a registration has passed, with the semester and the programme's limits
pub record Accepted (db : Catalogue) (now : ℕ) (rows : Registrations) (student_id course_id : ℕ)
    (semester_id : Option ℕ) (actor : Option Actor) (reason : String) (rows' : Registrations)
    (r : CourseRegistration) : Type 0 where
  pub semester : Semester
  pub programme : ℕ
  pub limits : ℕ × ℕ
  pub resolved : resolve_semester db.semesters semester_id ≡ ok semester
  pub window_open : is_registration_open db.semesters (some semester) now ≡ true
  pub not_existing : check_existing (find_existing rows student_id course_id semester.id) ≡ ok tt
  pub programme_of : get_programme_id db.students student_id ≡ ok programme
  pub prerequisites_met :
      unmet_prerequisites db.prerequisites (course_id ∷ []) (passed_course_ids rows student_id) []
      ≡ []
  pub limits_of : limits_for db.programmes programme ≡ ok limits
  pub within_limit :
      active_credit_load db.courses rows student_id semester.id
          (pk_of (find_existing rows student_id course_id semester.id))
        + total_credits db.courses (course_id ∷ [])
      ≤ limits.1
  pub holds_cleared : check_holds (blocking_holds db.hold_providers student_id) actor reason ≡ ok tt
  pub row :
      r
      ≡ new_registration rows
          (find_existing rows student_id course_id semester.id)
          (blocking_holds db.hold_providers student_id)
          student_id
          course_id
          semester.id
          actor
          reason
  pub saved : rows' ≡ save (find_existing rows student_id course_id semester.id) r rows

pub register_course-Accepted :
    (db : Catalogue) (now : ℕ) (rows : Registrations) (student_id course_id : ℕ)
    (semester_id : Option ℕ) (actor : Option Actor) (reason : String) (rows' : Registrations)
    (r : CourseRegistration)
    → register_course db now rows student_id course_id semester_id actor reason ≡ ok (rows', r)
    → Accepted db now rows student_id course_id semester_id actor reason rows' r
unfolding register_course
register_course-Accepted db now rows student_id course_id semester_id actor reason rows' r h =
    let (resolved, h0, h1) =
      bind_ok (lift_calendar (resolve_semester db.semesters semester_id)) _ h in
    let (semester, h2, h3) =
      bind_ok (lift_calendar (require_registration_open db.semesters (some resolved) now)) _ h1 in
    let existing = find_existing rows student_id course_id semester.id in
    let (u, existing_ok, h4) = bind_ok (check_existing existing) _ h3 in
    let (programme, programme_ok, h5) = bind_ok (get_programme_id db.students student_id) _ h4 in
    let unmet =
      unmet_prerequisites db.prerequisites (course_id ∷ []) (passed_course_ids rows student_id)
        [] in
    let (met, h6) = raise_if_ok (not (is_empty unmet)) _ _ h5 in
    let (limits, limits_ok, h7) = bind_ok (limits_for db.programmes programme) _ h6 in
    let load =
      active_credit_load db.courses rows student_id semester.id (pk_of existing)
      + total_credits db.courses (course_id ∷ []) in
    let (fits, h8) = raise_if_ok (ltb limits.1 load) _ _ h7 in
    let holds = blocking_holds db.hold_providers student_id in
    let (v, holds_ok, h9) = bind_ok (check_holds holds actor reason) _ h8 in
    let (course_ok, h10) = raise_if_ok (is_none (get (λ c. c.id) course_id db.courses)) _ _ h9 in
    let (same, opened) = require_open db.semesters resolved semester now (lift_ok _ _ h2) in
    let p = ok_injective h10 in
    record {
      semester = semester;
      programme = programme;
      limits = limits;
      resolved =
          subst (λ s. resolve_semester db.semesters semester_id ≡ ok s) same (lift_ok _ _ h0);
      window_open = subst (λ s. is_registration_open db.semesters (some s) now ≡ true) same opened;
      not_existing = existing_ok;
      programme_of = programme_ok;
      prerequisites_met = is_empty_nil _ met;
      limits_of = limits_ok;
      within_limit = ground (arith, fits);
      holds_cleared = holds_ok;
      row = sym (ap (λ q. q.1) p);
      saved = sym (ap (λ q. q.0) p) ∙ ap (λ x. save existing x rows) (ap (λ q. q.1) p);
    }

holds_or_override :
    (rows : Registrations) (existing : Option CourseRegistration) (holds : List Hold)
    (student_id course_id semester_id : ℕ) (actor : Option Actor) (reason : String)
    (r : CourseRegistration)
    → check_holds holds actor reason ≡ ok tt
    → r ≡ new_registration rows existing holds student_id course_id semester_id actor reason
    → (holds ≡ [])
      ⊎ ((can_override actor reason ≡ true)
          × (r.hold_override_by ≡ actor_pk actor)
          × (r.override_reason ≡ reason))
unfolding check_holds new_registration note_override
holds_or_override rows existing [] s c m actor reason r h e = inl refl
holds_or_override rows existing (x ∷ xs) s c m actor reason r h e =
    inr (ground (arith), ap (λ q. q.hold_override_by) e, ap (λ q. q.override_reason) e)

existing_semester :
    (rows : Registrations) (student_id course_id semester_id : ℕ) (old : CourseRegistration)
    → find_existing rows student_id course_id semester_id ≡ some old
    → old.semester ≡ semester_id
unfolding find_existing
existing_semester rows s c m old e =
    let test : CourseRegistration → Bool =
      λ r. (r.student == s) && (r.course == c) && (r.semester == m) in
    ground (arith, find_first-holds test old rows e)

row_semester :
    (rows : Registrations) (existing : Option CourseRegistration) (holds : List Hold)
    (student_id course_id semester_id : ℕ) (actor : Option Actor) (reason : String)
    (r : CourseRegistration)
    → find_existing rows student_id course_id semester_id ≡ existing
    → r ≡ new_registration rows existing holds student_id course_id semester_id actor reason
    → r.semester ≡ semester_id
unfolding new_registration note_override start_row
row_semester rows none [] s c m actor reason r f e = ap (λ q. q.semester) e
row_semester rows none (x ∷ xs) s c m actor reason r f e = ap (λ q. q.semester) e
row_semester rows (some old) [] s c m actor reason r f e =
    ap (λ q. q.semester) e ∙ existing_semester rows s c m old f
row_semester rows (some old) (x ∷ xs) s c m actor reason r f e =
    ap (λ q. q.semester) e ∙ existing_semester rows s c m old f

-- A registration that succeeds is a row of the semester that was asked for, or of the current one if none
-- was, and was made in the open window of that semester, with every prerequisite passed, within the
-- programme's maximum of credits, and either with no blocking hold or by an actor with the
-- permission to override who gave a reason, which the row then carries.
pub register_course_sound :
    (db : Catalogue) (now : ℕ) (rows : Registrations) (student_id course_id : ℕ)
    (semester_id : Option ℕ) (actor : Option Actor) (reason : String) (rows' : Registrations)
    (r : CourseRegistration)
    → register_course db now rows student_id course_id semester_id actor reason ≡ ok (rows', r)
    → (semester : Semester) × (programme : ℕ) × (limits : ℕ × ℕ) × (resolve_semester db.semesters
          semester_id
        ≡ ok semester)
      × (r.semester ≡ semester.id)
      × (is_registration_open db.semesters (some semester) now ≡ true)
      × (unmet_prerequisites db.prerequisites
            (course_id ∷ [])
            (passed_course_ids rows student_id)
            []
          ≡ [])
      × (get_programme_id db.students student_id ≡ ok programme)
      × (limits_for db.programmes programme ≡ ok limits)
      × (active_credit_load db.courses rows student_id semester.id
              (pk_of (find_existing rows student_id course_id semester.id))
            + total_credits db.courses (course_id ∷ [])
          ≤ limits.1)
      × ((blocking_holds db.hold_providers student_id ≡ [])
          ⊎ ((can_override actor reason ≡ true)
              × (r.hold_override_by ≡ actor_pk actor)
              × (r.override_reason ≡ reason)))
register_course_sound db now rows student_id course_id semester_id actor reason rows' r h =
    let a =
      register_course-Accepted db now rows student_id course_id semester_id actor reason rows' r
        h in
    (
      a.semester,
      a.programme,
      a.limits,
      a.resolved,
      row_semester rows _ _ student_id course_id a.semester.id actor reason r refl a.row,
      a.window_open,
      a.prerequisites_met,
      a.programme_of,
      a.limits_of,
      a.within_limit,
      holds_or_override rows _ _ student_id course_id a.semester.id actor reason r a.holds_cleared
          a.row,
    )
