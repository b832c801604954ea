-- ===== src/Attendance/Exams.antt =====
-- The percentage of attendance and the right to sit an exam.
use uni_acmis.Prelude.{
  ℕ, zero, String, ap, Option-cases, find_first-holds, suc, ◌*◌, ◌^◌, ◌≤◌, ◌<◌, ◌≡◌, ◌↔◌, refl, sym,
  Option, none, some, Bool, true, false, ◌||◌, ◌&&◌, not, List, [], ◌∷◌, arith, any, keep, count_if,
  find_first, update_row, ◌==◌, inl, inr, ok, raise_if_ok, ok_injective, is_blank,
}
use uni_acmis.Decimal.{Decimal, multiply, quantize, round_context, scale_for}
use uni_acmis.Decimal.Bounds.{
  quantize-round_context-le, le-quantize-round_context, round_context-le-one, pow_pos, le_half_even,
}
use uni_acmis.Attendance.{
  AttendanceStatus, present, absent, late, excused, SessionRecord, AttendanceWaiver, is_counted,
  is_attended, percentage_of, attendance_summary, below, is_below_threshold, exam_eligibility,
  grant_waiver, waiver_id,
}

attended_counts : (s : AttendanceStatus) → is_attended s ≡ true → is_counted s ≡ true
attended_counts present h = refl
attended_counts absent h = ground arith
attended_counts late h = refl
attended_counts excused h = h

-- a session that is attended is one that counts
attended-le-counted :
    (rows : List SessionRecord)
    → count_if (λ r. is_attended r.status) rows ≤ count_if (λ r. is_counted r.status) rows
attended-le-counted [] = omega arith
attended-le-counted (r ∷ rows) = ground (arith, attended-le-counted rows, attended_counts r.status)

-- a hundred times a quotient that is not above one
percentage-le : (x : Decimal) → x.coefficient ≤ 10 ^ x.scale → quantize (multiply x 100 0) ≤ 10000
unfolding multiply
percentage-le x h =
    quantize-round_context-le (x.coefficient * 100) (10 ^ x.scale * 10 ^ 0) 10000
      (omega (arith, pow_pos x.scale)) (omega (arith, pow_pos x.scale, h)) (omega (arith, h))

le-percentage : (x : Decimal) → x.coefficient ≡ 10 ^ x.scale → 10000 ≤ quantize (multiply x 100 0)
unfolding multiply
le-percentage x h =
    le-quantize-round_context (x.coefficient * 100) (10 ^ x.scale * 10 ^ 0) 10000
      (omega (arith, pow_pos x.scale)) (omega (arith, pow_pos x.scale, h)) (omega (arith, h))

one_whole : (n : ℕ) → 0 < n → 10 ^ (round_context n n).scale ≤ (round_context n n).coefficient
unfolding round_context
one_whole n p = le_half_even (n * 10 ^ scale_for 60 n n) n (10 ^ scale_for 60 n n) p (omega arith)

percentage_of-le : (a n p : ℕ) → a ≤ n → percentage_of a n ≡ some p → p ≤ 10000
unfolding percentage_of
percentage_of-le a zero p h e = ground arith
percentage_of-le a (suc n) p h e =
    let q : quantize (multiply (round_context a (suc n)) 100 0) ≡ p = ground (arith, e) in
    rw (sym q)
      (percentage-le (round_context a (suc n)) (round_context-le-one a (suc n) (omega arith) h))

abbrev pub is_absent : AttendanceStatus → Bool
is_absent present = false
is_absent absent = true
is_absent late = false
is_absent excused = false

counted_unless_absent : (s : AttendanceStatus) → is_absent s ≡ false → is_counted s ≡ is_attended s
counted_unless_absent present h = refl
counted_unless_absent absent h = ground arith
counted_unless_absent late h = refl
counted_unless_absent excused h = refl

-- without an absence, all the sessions that count are attended
all_attended :
    (rows : List SessionRecord) (g : ℕ)
    → count_if (λ r. (r.registration == g) && is_absent r.status) rows ≡ 0
    → count_if (λ r. is_attended r.status) (keep (λ r. r.registration == g) rows)
      ≡ count_if (λ r. is_counted r.status) (keep (λ r. r.registration == g) rows)
all_attended [] g h = refl
all_attended (r ∷ rows) g h = ground (arith, all_attended rows g, counted_unless_absent r.status)

full_percentage :
    (threshold n : ℕ) → threshold ≤ 10000 → below threshold (percentage_of n n) ≡ false
unfolding percentage_of
full_percentage threshold zero h = refl
full_percentage threshold (suc n) h =
    let x = round_context (suc n) (suc n) in
    let le = round_context-le-one (suc n) (suc n) (omega arith) (omega arith) in
    let ge = one_whole (suc n) (omega arith) in
    ground (arith, le-percentage x (omega (arith, le, ge)))

-- A registration with no absence on record may sit the exam, whatever the threshold up to 100 percent
-- and without a waiver.
pub full_attendance-eligible :
    (threshold : ℕ) (rows : List SessionRecord) (waivers : List AttendanceWaiver) (g : ℕ)
    → threshold ≤ 10000
    → count_if (λ r. (r.registration == g) && is_absent r.status) rows ≡ 0
    → (exam_eligibility threshold rows waivers g).eligible ≡ true
unfolding exam_eligibility is_below_threshold attendance_summary
full_attendance-eligible threshold rows waivers g h none_absent =
    let n = count_if (λ r. is_counted r.status) (keep (λ r. r.registration == g) rows) in
    rw (all_attended rows g none_absent, full_percentage threshold n h) refl

blocked_by :
    (threshold : ℕ) (q : Option ℕ) (w : Bool)
    → not (below threshold q) || w ≡ false
    → (w ≡ false) × ((p : ℕ) × (q ≡ some p) × (p < threshold))
blocked_by threshold none w h = ground arith
blocked_by threshold (some p) true h = ground arith
blocked_by threshold (some p) false h = (refl, (p, refl, ground arith))

-- A registration may not sit the exam exactly when it has no waiver and a percentage of attendance, which
-- is at most 100, below the threshold.
pub exam_eligibility-blocked_iff :
    (threshold : ℕ) (rows : List SessionRecord) (waivers : List AttendanceWaiver) (g : ℕ)
    → ((exam_eligibility threshold rows waivers g).eligible ≡ false) ↔ (
        (any (λ w. w.registration == g) waivers ≡ false)
        × ((p : ℕ) × ((attendance_summary rows g).percentage ≡ some p)
            × (p ≤ 10000)
            × (p < threshold)))
unfolding exam_eligibility is_below_threshold attendance_summary
exam_eligibility-blocked_iff threshold rows waivers g =
    let records = keep (λ r. r.registration == g) rows in
    (
      λ h.
          let (alone, (p, e, low)) = blocked_by threshold _ _ h in
          (alone, (p, e, percentage_of-le _ _ p (attended-le-counted records) e, low)),
      λ (alone, (p, e, _, low)). rw (alone, e) (ground (arith, low)),
    )

any-found :
    (p : AttendanceWaiver → Bool) (w : AttendanceWaiver) (ws : List AttendanceWaiver)
    → find_first p ws ≡ some w
    → any p ws ≡ true
any-found p w [] h = ground arith
any-found p w (x ∷ ws) h = ground (arith, any-found p w ws)

any-update_row :
    (p : AttendanceWaiver → Bool) (w : AttendanceWaiver) (ws : List AttendanceWaiver)
    → p w ≡ true
    → any p ws ≡ true
    → any p (update_row waiver_id w ws) ≡ true
any-update_row p w [] h k = k
any-update_row p w (x ∷ ws) h k = ground (arith, any-update_row p w ws h)

-- a granted waiver is on record
grant_waiver-waived :
    (waivers waivers' : List AttendanceWaiver) (w : AttendanceWaiver) (g : ℕ) (actor : Option ℕ)
    (reason : String)
    → grant_waiver waivers g actor reason ≡ ok (waivers', w)
    → any (λ x. x.registration == g) waivers' ≡ true
unfolding grant_waiver
grant_waiver-waived waivers waivers' w g actor reason h =
    let (given, h1) = raise_if_ok (is_blank reason) _ _ h in
    let p : AttendanceWaiver → Bool = λ x. x.registration == g in
    elim (Option-cases (find_first p waivers)) [
      | inr (old, e) ↦
          let r : AttendanceWaiver = record old { granted_by = actor; reason = reason } in
          let saved : update_row waiver_id r waivers ≡ waivers' =
            ap (λ q. q.0) (ok_injective (rw e at h1)) in
          rw (sym saved) (
            any-update_row p r waivers (find_first-holds p old waivers e)
              (any-found p old waivers e))
      | inl e ↦ let saved = ap (λ q. any p q.0) (ok_injective (rw e at h1)) in ground (arith, saved)
    ]

-- After a waiver is granted, the registration may sit the exam at any percentage and threshold.
pub grant_waiver-admits :
    (waivers waivers' : List AttendanceWaiver) (w : AttendanceWaiver) (g : ℕ) (actor : Option ℕ)
    (reason : String) (threshold : ℕ) (rows : List SessionRecord)
    → grant_waiver waivers g actor reason ≡ ok (waivers', w)
    → (exam_eligibility threshold rows waivers' g).eligible ≡ true
unfolding exam_eligibility
grant_waiver-admits waivers waivers' w g actor reason threshold rows h =
    ground (arith, grant_waiver-waived waivers waivers' w g actor reason h)
