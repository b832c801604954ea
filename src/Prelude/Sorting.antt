-- ===== src/Prelude/Sorting.antt =====
-- Python's `sorted`: stable, by a test that says which of two elements may come first.
use mathlib.Core.Path.{◌≡◌, refl, ◌∙◌, ap}
use mathlib.Core.Bool.{Bool, true, false}
use mathlib.Core.List.{List, [], ◌∷◌, Perm}
use mathlib.Core.List.Perm
use Prim.Native.Nat.{suc}
use native.Mathlib.Omega.{arith}
use uni_acmis.Prelude.Tests.{if◌then◌else◌, Bool-cases}
use uni_acmis.Prelude.Lists.{length, count_if, All}
use mathlib.Core.Logic.{inl, inr}

module _ {ℓ} {A : Type ℓ} (le : A → A → Bool) where
  unfoldable pub insert_sorted : A → List A → List A
  insert_sorted x [] = x ∷ []
  insert_sorted x (y ∷ ys) =
      let rest = insert_sorted x ys in if le x y then x ∷ y ∷ ys else y ∷ rest

  unfoldable pub sorted_by : List A → List A
  unfolding insert_sorted
  sorted_by [] = []
  sorted_by (x ∷ xs) = insert_sorted x (sorted_by xs)

  insert_sorted-perm : (x : A) (xs : List A) → Perm (insert_sorted x xs) (x ∷ xs)
  unfolding insert_sorted
  insert_sorted-perm x [] = Perm.refl _
  insert_sorted-perm x (y ∷ ys) = elim (Bool-cases (le x y)) [
    | inl h ↦ rw h (Perm.refl _)
    | inr h ↦ rw h (Perm.trans (Perm.cons y (insert_sorted-perm x ys)) (Perm.swap x y ys))
  ]

  -- sorting only reorders
  pub sorted_by-perm : (xs : List A) → Perm (sorted_by xs) xs
  unfolding sorted_by
  sorted_by-perm [] = Perm.refl _
  sorted_by-perm (x ∷ xs) =
      Perm.trans (insert_sorted-perm x (sorted_by xs)) (Perm.cons x (sorted_by-perm xs))

  insert_sorted-count_if :
      (p : A → Bool) (x : A) (xs : List A) → count_if p (insert_sorted x xs) ≡ count_if p (x ∷ xs)
  unfolding insert_sorted
  insert_sorted-count_if p x [] = refl
  insert_sorted-count_if p x (y ∷ ys) = ground (arith, insert_sorted-count_if p x ys)

  pub sorted_by-count_if : (p : A → Bool) (xs : List A) → count_if p (sorted_by xs) ≡ count_if p xs
  unfolding sorted_by
  sorted_by-count_if p [] = refl
  sorted_by-count_if p (x ∷ xs) =
      ground (arith, insert_sorted-count_if p x (sorted_by xs), sorted_by-count_if p xs)

  insert_sorted-All :
      (P : A → Type 0) (x : A) (xs : List A) → P x → All P xs → All P (insert_sorted x xs)
  unfolding insert_sorted
  insert_sorted-All P x [] h hs = (h, tt)
  insert_sorted-All P x (y ∷ ys) h (k, hs) = elim (Bool-cases (le x y)) [
    | inl e ↦ rw e (h, (k, hs))
    | inr e ↦ rw e (k, insert_sorted-All P x ys h hs)
  ]

  pub sorted_by-All : (P : A → Type 0) (xs : List A) → All P xs → All P (sorted_by xs)
  unfolding sorted_by
  sorted_by-All P [] h = tt
  sorted_by-All P (x ∷ xs) (h, hs) = insert_sorted-All P x (sorted_by xs) h (sorted_by-All P xs hs)

  insert_sorted-length : (x : A) (xs : List A) → length (insert_sorted x xs) ≡ suc (length xs)
  unfolding insert_sorted
  insert_sorted-length x [] = refl
  insert_sorted-length x (y ∷ ys) = ground (arith, insert_sorted-length x ys)

  pub sorted_by-length : (xs : List A) → length (sorted_by xs) ≡ length xs
  unfolding sorted_by
  sorted_by-length [] = refl
  sorted_by-length (x ∷ xs) = insert_sorted-length x (sorted_by xs) ∙ ap suc (sorted_by-length xs)

  -- each element may stand before all that follow it
  abbrev pub InOrder : List A → Type ℓ
  InOrder [] = Unit
  InOrder (x ∷ xs) = All (λ y. le x y ≡ true) xs × InOrder xs

  module _ (total : (x y : A) → le x y ≡ false → le y x ≡ true)
      (trans : (x y z : A) → le x y ≡ true → le y z ≡ true → le x z ≡ true) where
    All-le_trans :
        (x y : A) (ys : List A)
        → le x y ≡ true
        → All (λ z. le y z ≡ true) ys
        → All (λ z. le x z ≡ true) ys
    All-le_trans x y [] h a = tt
    All-le_trans x y (z ∷ zs) h a = (trans x y z h a.0, All-le_trans x y zs h a.1)

    All-insert_sorted :
        (w x : A) (xs : List A)
        → le w x ≡ true
        → All (λ z. le w z ≡ true) xs
        → All (λ z. le w z ≡ true) (insert_sorted x xs)
    unfolding insert_sorted
    All-insert_sorted w x [] h a = (h, tt)
    All-insert_sorted w x (y ∷ ys) h a = elim (Bool-cases (le x y)) [
      | inl e ↦ rw e (h, a)
      | inr e ↦ rw e (a.0, All-insert_sorted w x ys h a.1)
    ]

    insert_sorted-InOrder : (x : A) (xs : List A) → InOrder xs → InOrder (insert_sorted x xs)
    unfolding insert_sorted
    insert_sorted-InOrder x [] o = (tt, tt)
    insert_sorted-InOrder x (y ∷ ys) o = elim (Bool-cases (le x y)) [
      | inl e ↦ rw e ((e, All-le_trans x y ys e o.0), o)
      | inr e ↦ rw e (All-insert_sorted y x ys (total x y e) o.0, insert_sorted-InOrder x ys o.1)
    ]

    -- under a total and transitive test the result is in order
    pub sorted_by-InOrder : (xs : List A) → InOrder (sorted_by xs)
    unfolding sorted_by
    sorted_by-InOrder [] = tt
    sorted_by-InOrder (x ∷ xs) = insert_sorted-InOrder x (sorted_by xs) (sorted_by-InOrder xs)
