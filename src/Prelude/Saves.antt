-- ===== src/Prelude/Saves.antt =====
-- What the save of a row keeps: the rows of other keys, selections and counts.
use Prim.Native.Nat.{ℕ, ◌+◌, ◌≤◌}
use mathlib.Core.Path.{ap, subst, sym, ◌≡◌, refl}
use mathlib.Core.Bool.{Bool, true, false}
use mathlib.Core.List.{List, [], ◌∷◌}
use mathlib.Core.Option.{some}
use mathlib.Core.Logic.{inl, inr}
use native.Mathlib.Omega.{arith}
use uni_acmis.Prelude.Tests.{◌==◌, if◌then◌else◌, Bool-cases}
use uni_acmis.Prelude.Lists.{count_if, keep, All}
use uni_acmis.Prelude.Tables.{
  highest_key, sum_by, update_row, get, UniqueKeys, UniqueKeys-tail, keep_away, sum_by-update_row,
}

module _ {A : Type 0} (key : A → ℕ) where
  pub All-update_row :
      (P : A → Type 0) (r : A) (rows : List A) → P r → All P rows → All P (update_row key r rows)
  All-update_row P r [] h k = tt
  All-update_row P r (x ∷ xs) h k = elim (Bool-cases (key x == key r)) [
    | inl e ↦ (subst (λ b. P (if b then r else x)) (sym e) h, All-update_row P r xs h k.1)
    | inr e ↦ (subst (λ b. P (if b then r else x)) (sym e) k.0, All-update_row P r xs h k.1)
  ]

  pub get-All :
      (P : A → Type 0) (k : ℕ) (a : A) (rows : List A) → get key k rows ≡ some a → All P rows → P a
  get-All P k a [] h s = absurd (ground arith)
  get-All P k a (x ∷ xs) h s = elim (Bool-cases (key x == k)) [
    | inl e ↦ let same : x ≡ a = ground (arith, e, h) in subst P same s.0
    | inr e ↦ get-All P k a xs (rw e at h) s.1
  ]

  -- a saved row is the row of its key, and leaves those of other keys
  pub get-update_row :
      (r old : A) (rows : List A)
      → get key (key r) rows ≡ some old
      → get key (key r) (update_row key r rows) ≡ some r
  get-update_row r old [] h = ground arith
  get-update_row r old (x ∷ xs) h = elim (Bool-cases (key x == key r)) [
    | inl e ↦ let same : (key r == key r) ≡ true = ground arith in rw (e, same) refl
    | inr e ↦ rw (e, e) (get-update_row r old xs (rw e at h))
  ]

  pub get-update_row_away :
      (r : A) (k : ℕ) (rows : List A)
      → (key r == k) ≡ false
      → get key k (update_row key r rows) ≡ get key k rows
  get-update_row_away r k [] h = refl
  get-update_row_away r k (x ∷ xs) h = elim (Bool-cases (key x == key r)) [
    | inl e ↦ ground (arith, e, h, get-update_row_away r k xs h)
    | inr e ↦ ground (arith, e, get-update_row_away r k xs h)
  ]

  -- a save does not show in a selection that has neither the old row nor the new
  pub keep-update_row :
      (p : A → Bool) (r old : A) (rows : List A)
      → UniqueKeys key rows
      → get key (key r) rows ≡ some old
      → p old ≡ false
      → p r ≡ false
      → keep p (update_row key r rows) ≡ keep p rows
  keep-update_row p r old [] u g h h' = refl
  keep-update_row p r old (x ∷ xs) u g h h' = elim (Bool-cases (key x == key r)) [
    | inl e ↦
        let zero_left : count_if (λ y. key y == key r) xs ≡ 0 = ground (arith, u (key r)) in
        let same : x ≡ old = ground (arith, e, g) in
        let px : p x ≡ false = subst (λ y. p y ≡ false) (sym same) h in
        rw (e, h', px) (keep_away key p r xs zero_left)
    | inr e ↦
        ground (arith, e, keep-update_row p r old xs (UniqueKeys-tail key x xs u) (rw e at g) h h')
  ]

  count_as_sum :
      (p : A → Bool) (rows : List A) → count_if p rows ≡ sum_by (λ x. if p x then 1 else 0) rows
  count_as_sum p [] = refl
  count_as_sum p (x ∷ xs) = ground (arith, count_as_sum p xs)

  -- the save of a row that a count leaves out
  pub count_if-update_row :
      (p : A → Bool) (r old : A) (rows : List A)
      → UniqueKeys key rows
      → get key (key r) rows ≡ some old
      → p r ≡ false
      → count_if p (update_row key r rows) ≤ count_if p rows
  count_if-update_row p r old rows u g out =
      let w : A → ℕ = λ x. if p x then 1 else 0 in
      let none_left : w r ≡ 0 = rw out refl in
      omega (
        arith,
        count_as_sum p rows,
        count_as_sum p (update_row key r rows),
        sum_by-update_row key w r old rows u g,
        none_left,
      )

  -- the save of a row that counts as the stored one does
  pub count_if-keeps :
      (p : A → Bool) (r old : A) (rows : List A)
      → UniqueKeys key rows
      → get key (key r) rows ≡ some old
      → p r ≡ p old
      → count_if p (update_row key r rows) ≡ count_if p rows
  count_if-keeps p r old rows u g same =
      let w : A → ℕ = λ x. if p x then 1 else 0 in
      let equal : w r ≡ w old = ap (λ b. if b then 1 else 0) same in
      omega (
        arith,
        count_as_sum p rows,
        count_as_sum p (update_row key r rows),
        sum_by-update_row key w r old rows u g,
        equal,
      )

  -- the save of a row that a count leaves out, over one that it has
  pub count_if-drops :
      (p : A → Bool) (r old : A) (rows : List A)
      → UniqueKeys key rows
      → get key (key r) rows ≡ some old
      → p r ≡ false
      → p old ≡ true
      → count_if p (update_row key r rows) + 1 ≡ count_if p rows
  count_if-drops p r old rows u g out in_old =
      let w : A → ℕ = λ x. if p x then 1 else 0 in
      let none_left : w r ≡ 0 = rw out refl in
      let one : w old ≡ 1 = rw in_old refl in
      omega (
        arith,
        count_as_sum p rows,
        count_as_sum p (update_row key r rows),
        sum_by-update_row key w r old rows u g,
        none_left,
        one,
      )

  -- the highest key, which a save leaves as it is
  pub highest-update_row :
      (r : A) (rows : List A) → highest_key key (update_row key r rows) ≡ highest_key key rows
  highest-update_row r [] = refl
  highest-update_row r (x ∷ xs) = ground (arith, highest-update_row r xs)

  pub get-le-highest :
      (k : ℕ) (a : A) (rows : List A) → get key k rows ≡ some a → k ≤ highest_key key rows
  get-le-highest k a [] h = ground arith
  get-le-highest k a (x ∷ xs) h = ground (arith, get-le-highest k a xs)
