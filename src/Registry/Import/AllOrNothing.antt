-- ===== src/Registry/Import/AllOrNothing.antt =====
-- An import writes all of its rows or none.
use text.Mathlib.TextEquality.{eq_iff}
use uni_acmis.Prelude.{
  ℕ, next_key, suc, ◌+◌, ◌≡◌, ◌⊎◌, refl, sym, ◌∙◌, ap, String, Option, some, Bool, true, ◌||◌, not,
  List, [], ◌∷◌, ◌++◌, arith, length, keep, All, Bool-cases, Option-cases, inl, inr, Result-cases,
  ok, bind_ok, raise_if_ok, ok_injective,
}
use uni_acmis.Registry.{Student, Registry, Reference, student_key, is_clean_student, is_empty}
use uni_acmis.Registry.Creation.{NewStudent, student_of, create_student, identifier_for, text_or}
use uni_acmis.Registry.Import.{
  ImportRow, resolve_import_row, RowErrors, resolve_rows, Seen, seen_at, find_duplicates, note_row,
  stands_first, create_all, ImportReport, no_errors, import_students,
}

create_student-count :
    (reference : Reference) (today : ℕ) (r r' : Registry) (n : NewStudent) (actor : Option ℕ)
    (reason : String) (s : Student)
    → create_student reference today r n actor reason ≡ ok (r', s)
    → length r'.students ≡ length r.students + 1
unfolding create_student
create_student-count reference today r r' n actor reason s h =
    let (identified, _, h1) = bind_ok (identifier_for reference r.sequences n) _ h in
    let t = student_of today (next_key student_key r.students) identified.1 n in
    let (_, h2) = raise_if_ok (not (is_clean_student reference r.students t)) _ _ h1 in
    let e = ap (λ (q : Registry × Student). length q.0.students) (ok_injective h2) in
    omega (arith, e)

-- every row of the list is created, once each
create_all-count :
    (reference : Reference) (today : ℕ) (r r' : Registry) (resolved : List (ℕ × NewStudent))
    (actor : Option ℕ) (reason : String) (n : ℕ)
    → create_all reference today r resolved actor reason ≡ ok (r', n)
    → (n ≡ length resolved) × (length r'.students ≡ length r.students + length resolved)
unfolding create_all
create_all-count reference today r r' [] actor reason n h = ground (arith, h)
create_all-count reference today r r' ((index, k) ∷ resolved) actor reason n h =
    let (created, first, h1) = bind_ok (create_student reference today r k actor reason) _ h in
    let (rest, others, h2) =
      bind_ok (create_all reference today created.0 resolved actor reason) _ h1 in
    let one = create_student-count reference today r created.0 k actor reason created.1 first in
    let (count, size) =
      create_all-count reference today created.0 rest.0 resolved actor reason rest.1 others in
    let e = ok_injective h2 in
    let e0 = ap (λ (q : Registry × ℕ). length q.0.students) e in
    let e1 = ap (λ (q : Registry × ℕ). q.1) e in
    (omega (arith, e1, count), omega (arith, e0, one, size))

-- without errors, every row is resolved
resolve_rows-length :
    (reference : Reference) (today : ℕ) (students : List Student) (index : ℕ)
    (rows : List ImportRow)
    → no_errors (resolve_rows reference today students index rows).errors ≡ true
    → length (resolve_rows reference today students index rows).resolved ≡ length rows
unfolding resolve_rows
resolve_rows-length reference today students index [] h = refl
resolve_rows-length reference today students index (row ∷ rows) h =
    elim (Result-cases (resolve_import_row reference today students row)) [
      | inl (n, e) ↦
          rw e (ap suc (resolve_rows-length reference today students (index + 1) rows (rw e at h)))
      | inr (ps, e) ↦ ground (arith, rw e at h)
    ]

-- a body of the loop keeps what the dictionary has
note_row-kept :
    (seen : Seen) (index : ℕ) (n : NewStudent) (s : String) (i : ℕ)
    → seen_at s seen ≡ some i
    → seen_at s (note_row seen index n).0 ≡ some i
unfolding note_row seen_at
note_row-kept seen index n s i h = elim (Option-cases (seen_at n.student_id seen)) [
  | inl new ↦ ground (arith, new, h, eq_iff n.student_id s)
  | inr (j, old) ↦ ground (arith, old, h)
]

seen_kept :
    (seen : Seen) (resolved : List (ℕ × NewStudent)) (s : String) (i : ℕ)
    → seen_at s seen ≡ some i
    → seen_at s (find_duplicates seen resolved).0 ≡ some i
unfolding find_duplicates
seen_kept seen [] s i h = h
seen_kept seen ((index, n) ∷ resolved) s i h =
    seen_kept (note_row seen index n).0 resolved s i (note_row-kept seen index n s i h)

-- a row that is no duplicate is in the dictionary
note_row-there :
    (seen : Seen) (index : ℕ) (n : NewStudent)
    → no_errors (note_row seen index n).1 ≡ true
    → (is_empty n.student_id ≡ true) ⊎ (seen_at n.student_id (note_row seen index n).0 ≡ some index)
unfolding note_row seen_at
note_row-there seen index n h = elim (Bool-cases (is_empty n.student_id)) [
  | inl e ↦ inl e
  | inr e ↦ elim (Option-cases (seen_at n.student_id seen)) [
    | inl new ↦ inr (ground (arith, e, new, eq_iff n.student_id n.student_id))
    | inr (j, old) ↦ inr (ground (arith, e, old, h))
  ]
]

no_errors-append :
    (xs ys : List RowErrors) → no_errors (xs ++ ys) ≡ true → (xs ≡ []) × (no_errors ys ≡ true)
no_errors-append [] ys h = (refl, h)
no_errors-append (x ∷ xs) ys h = ground (arith, h)

-- without duplicates, every row stands first
All-first :
    (seen : Seen) (resolved : List (ℕ × NewStudent))
    → no_errors (find_duplicates seen resolved).1 ≡ true
    → All (λ r. stands_first (find_duplicates seen resolved).0 r ≡ true) resolved
unfolding find_duplicates
All-first seen [] h = tt
All-first seen ((index, n) ∷ resolved) h =
    let noted = note_row seen index n in
    let (clean, rest) = no_errors-append noted.1 (find_duplicates noted.0 resolved).1 h in
    let none_here : no_errors noted.1 ≡ true = rw clean refl in
    let there =
      elim (note_row-there seen index n none_here)
        as (λ x. stands_first (find_duplicates noted.0 resolved).0 (index, n) ≡ true) [
          | inl e ↦ rw e refl
          | inr e ↦
              let kept = seen_kept noted.0 resolved n.student_id index e in ground (arith, kept)
        ] in
    (there, All-first noted.0 resolved rest)

keep-All : {A : Type 0} (p : A → Bool) (xs : List A) → All (λ x. p x ≡ true) xs → keep p xs ≡ xs
keep-All p [] h = refl
keep-All p (x ∷ xs) (h, rest) = rw h (ap (λ ys. x ∷ ys) (keep-All p xs rest))

-- An import that does not raise either leaves the registry as it was and reports that it created
-- nothing, or it was asked to commit, reports no errors, and adds as many students as the
-- spreadsheet has rows, which is what it reports.
pub import_students-all_or_nothing :
    (reference : Reference) (today : ℕ) (r r' : Registry) (rows : List ImportRow) (commit : Bool)
    (actor : Option ℕ) (reason : String) (report : ImportReport)
    → import_students reference today r rows commit actor reason ≡ ok (r', report)
    → ((r' ≡ r) × (report.created ≡ 0))
      ⊎ ((commit ≡ true)
          × (report.errors ≡ [])
          × (report.created ≡ length rows)
          × (length r'.students ≡ length r.students + length rows))
unfolding import_students
import_students-all_or_nothing reference today r r' rows commit actor reason report h =
    let sorted = resolve_rows reference today r.students 1 rows in
    let checked = find_duplicates [] sorted.resolved in
    let resolved = keep (stands_first checked.0) sorted.resolved in
    elim (Bool-cases (not (no_errors (sorted.errors ++ checked.1)) || not commit)) [
      | inl stop ↦ let e = ok_injective (rw stop at h) in inl (ground (arith, e), ground (arith, e))
      | inr go ↦
          let (made, created, h1) =
            bind_ok
              (create_all reference today r resolved actor (text_or reason "Bulk legacy import")) _
              (rw go at h) in
          let e = ok_injective h1 in
          let clean : no_errors (sorted.errors ++ checked.1) ≡ true = ground (arith, go) in
          let (sorted_clean, checked_clean) = no_errors-append sorted.errors checked.1 clean in
          let none_wrong : no_errors sorted.errors ≡ true = rw sorted_clean refl in
          let size = resolve_rows-length reference today r.students 1 rows none_wrong in
          let whole =
            keep-All (stands_first checked.0) sorted.resolved
              (All-first [] sorted.resolved checked_clean) in
          let (count, grown) =
            create_all-count reference today r made.0 resolved actor _ made.1 created in
          let same : length resolved ≡ length rows = ap length whole ∙ size in
          let e0 = ap (λ (q : Registry × ImportReport). length q.0.students) e in
          let e1 = ap (λ (q : Registry × ImportReport). q.1.created) e in
          let e2 = ap (λ (q : Registry × ImportReport). q.1.errors) e in
          inr (
            ground (arith, go),
            sym e2,
            omega (arith, e1, count, same),
            omega (arith, e0, grown, same),
          )
    ]
