-- ===== src/Enrollment/Limits.antt =====
-- The credit limit as an invariant of the table of registrations.
use mathlib.Core.Path.{subst}
use uni_acmis.Prelude.{
  ℕ, ◌+◌, ◌≤◌, ◌≡◌, refl, sym, ◌∙◌, String, Option, none, some, true, false, not, ◌&&◌, List, [],
  ◌∷◌, arith, ◌==◌, get, find_first-holds, ok, sum_by, sum_by-keep, sum_by-ext, sum_by-update_row,
  sum_by-exclude, UniqueKeys, UniqueKeys-insert, UniqueKeys-update_row, get_found, next_key,
  update_row, if◌then◌else◌,
}
use uni_acmis.Core.Holds.{Hold}
use uni_acmis.Curriculum.{Course, total_credits}
use uni_acmis.Enrollment.{
  CourseRegistration, Registrations, Catalogue, Actor, reg_id, is_registered, credit_hours,
  is_active, is_excluded, active_credit_load, find_existing, check_existing, pk_of,
  new_registration, start_row, note_override, save, get_programme_id, limits_for,
}

-- what a row adds to an active load
abbrev pub weight : List Course → ℕ → ℕ → CourseRegistration → ℕ
weight courses s m r = if is_active s m r then credit_hours courses r.course else 0

load_all :
    (courses : List Course) (rows : Registrations) (s m : ℕ)
    → active_credit_load courses rows s m none ≡ sum_by (weight courses s m) rows
unfolding active_credit_load is_excluded
load_all courses rows s m =
    sum_by-keep (λ r. credit_hours courses r.course) (λ r. is_active s m r && true) rows
    ∙ sum_by-ext _ _ (λ r. ground arith) rows

load_excluding :
    (courses : List Course) (rows : Registrations) (s m k : ℕ)
    → active_credit_load courses rows s m (some k)
      ≡ sum_by (λ r. if reg_id r == k then 0 else weight courses s m r) rows
unfolding active_credit_load is_excluded
load_excluding courses rows s m k =
    sum_by-keep (λ r. credit_hours courses r.course) (λ r. is_active s m r && not (r.id == k)) rows
    ∙ sum_by-ext _ _ (λ r. ground arith) rows

pub credits_counted :
    (courses : List Course) (c : ℕ) → credit_hours courses c ≤ total_credits courses (c ∷ [])
unfolding credit_hours total_credits
credits_counted [] c = omega arith
credits_counted (x ∷ xs) c = ground (arith, credits_counted xs c)

-- whether a row is of the student, course and semester
abbrev pub IsRowOf : (student_id course_id semester_id : ℕ) → CourseRegistration → Type 0
IsRowOf s c m r = (r.student ≡ s) × (r.course ≡ c) × (r.semester ≡ m)

fresh_row :
    (rows : Registrations) (holds : List Hold) (s c m : ℕ) (actor : Option Actor) (reason : String)
    → let r = new_registration rows none holds s c m actor reason in
      IsRowOf s c m r × (r.id ≡ next_key reg_id rows)
unfolding new_registration start_row note_override
fresh_row rows [] s c m actor reason = ((refl, refl, refl), refl)
fresh_row rows (_ ∷ _) s c m actor reason = ((refl, refl, refl), refl)

reused_row :
    (rows : Registrations) (old : CourseRegistration) (holds : List Hold) (s c m : ℕ)
    (actor : Option Actor) (reason : String)
    → IsRowOf s c m old
    → let r = new_registration rows (some old) holds s c m actor reason in
      IsRowOf s c m r × (r.id ≡ old.id)
unfolding new_registration start_row note_override
reused_row rows old [] s c m actor reason h = (h, refl)
reused_row rows old (_ ∷ _) s c m actor reason h = (h, refl)

existing_row :
    (rows : Registrations) (s c m : ℕ) (old : CourseRegistration)
    → find_existing rows s c m ≡ some old
    → IsRowOf s c m old
unfolding find_existing
existing_row rows s c m old h =
    let q =
      find_first-holds (λ r. (r.student == s) && (r.course == c) && (r.semester == m)) old rows h in
    (ground (arith, q), ground (arith, q), ground (arith, q))

existing_get :
    (rows : Registrations) (s c m : ℕ) (old : CourseRegistration)
    → UniqueKeys reg_id rows
    → find_existing rows s c m ≡ some old
    → get reg_id old.id rows ≡ some old
unfolding find_existing
existing_get rows s c m old u h = get_found reg_id _ old rows u h

not_registered :
    (old : CourseRegistration)
    → check_existing (some old) ≡ ok tt
    → is_registered old.status ≡ false
unfolding check_existing
not_registered old h = ground arith

pub unweighted :
    (courses : List Course) (s m : ℕ) (r : CourseRegistration)
    → is_registered r.status ≡ false
    → weight courses s m r ≡ 0
unfolding is_active
unweighted courses s m r h = ground arith

-- the save of an inactive row with the key of a stored one raises no load
pub save_inactive :
    (courses : List Course) (rows : Registrations) (s m : ℕ) (r old : CourseRegistration)
    → UniqueKeys reg_id rows
    → get reg_id r.id rows ≡ some old
    → is_registered r.status ≡ false
    → active_credit_load courses (update_row reg_id r rows) s m none
      ≤ active_credit_load courses rows s m none
save_inactive courses rows s m r old u g h = omega (
  arith,
  load_all courses rows s m,
  load_all courses (update_row reg_id r rows) s m,
  sum_by-update_row reg_id (weight courses s m) r old rows u g,
  unweighted courses s m r h,
)

-- the table after the save of a registration
pub record Saved (courses : List Course) (rows rows' : Registrations) (s c m : ℕ) (k : Option ℕ)
    (r : CourseRegistration) : Type 0 where
  pub row : IsRowOf s c m r
  pub unique : UniqueKeys reg_id rows'
  pub load :
      (s' m' : ℕ)
      → active_credit_load courses rows' s' m' none
        ≡ active_credit_load courses rows s' m' none + weight courses s' m' r
  pub excluded : active_credit_load courses rows s m k ≡ active_credit_load courses rows s m none

pub save-Saved :
    (courses : List Course) (rows : Registrations) (existing : Option CourseRegistration)
    (holds : List Hold) (s c m : ℕ) (actor : Option Actor) (reason : String)
    → UniqueKeys reg_id rows
    → find_existing rows s c m ≡ existing
    → check_existing existing ≡ ok tt
    → let r = new_registration rows existing holds s c m actor reason in
      Saved courses rows (save existing r rows) s c m (pk_of existing) r
unfolding save
save-Saved courses rows none holds s c m actor reason u found fresh =
    let r = new_registration rows none holds s c m actor reason in
    let (row, key) = fresh_row rows holds s c m actor reason in
    record {
      row = row;
      unique = UniqueKeys-insert reg_id r rows key u;
      load = λ s' m'. omega (arith, load_all courses rows s' m', load_all courses (r ∷ rows) s' m');
      excluded = refl;
    }
save-Saved courses rows (some old) holds s c m actor reason u found fresh =
    let r = new_registration rows (some old) holds s c m actor reason in
    let (row, key) =
      reused_row rows old holds s c m actor reason (existing_row rows s c m old found) in
    let stored = existing_get rows s c m old u found in
    let inactive = not_registered old fresh in
    record {
      row = row;
      unique = UniqueKeys-update_row reg_id r rows u;
      load = λ s' m'. omega (
        arith,
        load_all courses rows s' m',
        load_all courses (update_row reg_id r rows) s' m',
        sum_by-update_row reg_id (weight courses s' m') r old rows u
            (subst (λ k. get reg_id k rows ≡ some old) (sym key) stored),
        unweighted courses s' m' old inactive,
      );
      excluded = omega (
        arith,
        load_all courses rows s m,
        load_excluding courses rows s m old.id,
        sum_by-exclude reg_id (weight courses s m) old.id old rows u stored,
        unweighted courses s m old inactive,
      );
    }

-- No student's active load in a semester is over the maximum of the student's programme.
abbrev pub WithinLimits : Catalogue → Registrations → Type 0
WithinLimits db rows =
    (s m p : ℕ) (l : ℕ × ℕ)
    → get_programme_id db.students s ≡ ok p
    → limits_for db.programmes p ≡ ok l
    → active_credit_load db.courses rows s m none ≤ l.1
