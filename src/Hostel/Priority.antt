-- ===== src/Hostel/Priority.antt =====
-- The order of the waiting list.
use mathlib.Core.List.{Perm}
use uni_acmis.Prelude.{ℕ, ◌≡◌, true, false, List, arith, InOrder, sorted_by-perm, sorted_by-InOrder}
use uni_acmis.Hostel.{Profile, Key, priority_key, key_le, waiting_list_priority}

key_le-total : (x y : Key) → key_le x y ≡ false → key_le y x ≡ true
unfolding key_le
key_le-total (a, b, c) (x, y, z) h = ground (arith, h)

key_le_trans : (x y z : Key) → key_le x y ≡ true → key_le y z ≡ true → key_le x z ≡ true
unfolding key_le
key_le_trans (a, b, c) (x, y, z) (p, q, r) h k = ground (arith, h, k)

-- The waiting list is a permutation of the students asked about, in the order of their keys: those with
-- a disability first, then those from outside of South Sudan, then those of an earlier entry year.
pub waiting_list_priority-InOrder :
    (profiles : List Profile) (students : List ℕ)
    → Perm (waiting_list_priority profiles students) students
      × InOrder
          (λ s t. key_le (priority_key profiles s) (priority_key profiles t))
          (waiting_list_priority profiles students)
unfolding waiting_list_priority
waiting_list_priority-InOrder profiles students = (
  sorted_by-perm _ students,
  sorted_by-InOrder _ (λ s t h. key_le-total (priority_key profiles s) (priority_key profiles t) h)
      (λ s t r h k.
        key_le_trans (priority_key profiles s) (priority_key profiles t) (priority_key profiles r) h
          k)
      students,
)
