-- ===== src/Prelude/Tables.antt =====
-- Tables as lists of rows with keys: the lookups and saves of the ORM, and what they keep.
use Prim.Native.Nat.{ℕ, ◌+◌, ◌≤◌, ◌<◌}
use mathlib.Core.Path.{◌≡◌, refl}
use mathlib.Core.Bool.{Bool, true}
use mathlib.Core.List.{List, [], ◌∷◌}
use mathlib.Core.Option.{Option, some}
use mathlib.Core.Logic.{inl, inr}
use native.Mathlib.Omega.{arith}
use uni_acmis.Prelude.Tests.{ltb, ◌==◌, if◌then◌else◌, Bool-cases}
use uni_acmis.Prelude.Lists.{find_first, count_if, keep}

-- `sum(...)`
abbrev pub sum_by : {A : Type 0} → (A → ℕ) → List A → ℕ
sum_by w [] = 0
sum_by w (x ∷ xs) = w x + sum_by w xs

-- what `.first()` finds passes the test
pub find_first-holds :
    {A : Type 0} (p : A → Bool) (x : A) (xs : List A) → find_first p xs ≡ some x → p x ≡ true
find_first-holds p x [] h = ground arith
find_first-holds p x (y ∷ ys) h = ground (arith, find_first-holds p x ys)

pub sum_by-keep :
    {A : Type 0} (w : A → ℕ) (p : A → Bool) (xs : List A)
    → sum_by w (keep p xs) ≡ sum_by (λ x. if p x then w x else 0) xs
sum_by-keep w p [] = refl
sum_by-keep w p (x ∷ xs) = ground (arith, sum_by-keep w p xs)

pub sum_by-ext :
    {A : Type 0} (v w : A → ℕ) → ((x : A) → v x ≡ w x) → (xs : List A) → sum_by v xs ≡ sum_by w xs
sum_by-ext v w h [] = refl
sum_by-ext v w h (x ∷ xs) = omega (arith, h x, sum_by-ext v w h xs)

module _ {A : Type 0} (key : A → ℕ) where
  -- the save of a row that the table has
  abbrev pub update_row : A → List A → List A
  update_row r [] = []
  update_row r (x ∷ xs) = (if key x == key r then r else x) ∷ update_row r xs

  abbrev pub highest_key : List A → ℕ
  highest_key [] = 0
  highest_key (x ∷ xs) = let m = highest_key xs in if ltb m (key x) then key x else m

  -- the key that a new row is given
  abbrev pub next_key : List A → ℕ
  next_key rows = highest_key rows + 1

  -- the row with a key
  abbrev pub get : ℕ → List A → Option A
  get k rows = find_first (λ x. key x == k) rows

  abbrev pub UniqueKeys : List A → Type 0
  UniqueKeys rows = (k : ℕ) → count_if (λ x. key x == k) rows ≤ 1

  count-update_row :
      (r : A) (k : ℕ) (rows : List A)
      → count_if (λ x. key x == k) (update_row r rows) ≡ count_if (λ x. key x == k) rows
  count-update_row r k [] = refl
  count-update_row r k (x ∷ xs) = ground (arith, count-update_row r k xs)

  pub UniqueKeys-update_row :
      (r : A) (rows : List A) → UniqueKeys rows → UniqueKeys (update_row r rows)
  UniqueKeys-update_row r rows u k = omega (arith, u k, count-update_row r k rows)

  count_above : (k : ℕ) (rows : List A) → highest_key rows < k → count_if (λ x. key x == k) rows ≡ 0
  count_above k [] h = refl
  count_above k (x ∷ xs) h = ground (arith, count_above k xs)

  pub UniqueKeys-insert :
      (r : A) (rows : List A) → key r ≡ next_key rows → UniqueKeys rows → UniqueKeys (r ∷ rows)
  UniqueKeys-insert r rows e u k = ground (arith, u k, count_above k rows)

  count-get :
      (k : ℕ) (old : A) (rows : List A)
      → get k rows ≡ some old
      → 0 < count_if (λ x. key x == k) rows
  count-get k old [] h = ground arith
  count-get k old (x ∷ xs) h = ground (arith, count-get k old xs)

  pub get_key : (k : ℕ) (old : A) (rows : List A) → get k rows ≡ some old → key old ≡ k
  get_key k old [] h = ground arith
  get_key k old (x ∷ xs) h = ground (arith, get_key k old xs)

  pub UniqueKeys-tail : (x : A) (xs : List A) → UniqueKeys (x ∷ xs) → UniqueKeys xs
  UniqueKeys-tail x xs u k = ground (arith, u k)

  count_found :
      (p : A → Bool) (old : A) (rows : List A)
      → find_first p rows ≡ some old
      → 0 < count_if (λ x. key x == key old) rows
  count_found p old [] h = ground arith
  count_found p old (x ∷ xs) h = ground (arith, count_found p old xs)

  pub keep_away :
      (p : A → Bool) (r : A) (rows : List A)
      → count_if (λ x. key x == key r) rows ≡ 0
      → keep p (update_row r rows) ≡ keep p rows
  keep_away p r [] h = refl
  keep_away p r (x ∷ xs) h = ground (arith, keep_away p r xs)

  -- a row found by a test is the row of its key
  pub get_found :
      (p : A → Bool) (old : A) (rows : List A)
      → UniqueKeys rows
      → find_first p rows ≡ some old
      → get (key old) rows ≡ some old
  get_found p old [] u h = ground arith
  get_found p old (x ∷ xs) u h =
      ground (arith, get_found p old xs (UniqueKeys-tail x xs u), count_found p old xs, u (key old))

  sum_away :
      (w : A → ℕ) (r : A) (rows : List A)
      → count_if (λ x. key x == key r) rows ≡ 0
      → sum_by w (update_row r rows) ≡ sum_by w rows
  sum_away w r [] h = refl
  sum_away w r (x ∷ xs) h = ground (arith, sum_away w r xs)

  -- a save moves a total by the difference of the two rows
  pub sum_by-update_row :
      (w : A → ℕ) (r old : A) (rows : List A)
      → UniqueKeys rows
      → get (key r) rows ≡ some old
      → sum_by w (update_row r rows) + w old ≡ sum_by w rows + w r
  sum_by-update_row w r old [] u h = ground arith
  sum_by-update_row w r old (x ∷ xs) u h = elim (Bool-cases (key x == key r)) [
    | inl e ↦
        let zero_left : count_if (λ y. key y == key r) xs ≡ 0 = ground (arith, u (key r)) in
        ground (arith, sum_away w r xs zero_left)
    | inr e ↦ ground (arith, sum_by-update_row w r old xs (UniqueKeys-tail x xs u))
  ]

  exclude_away :
      (w : A → ℕ) (k : ℕ) (rows : List A)
      → count_if (λ x. key x == k) rows ≡ 0
      → sum_by (λ x. if key x == k then 0 else w x) rows ≡ sum_by w rows
  exclude_away w k [] h = refl
  exclude_away w k (x ∷ xs) h = ground (arith, exclude_away w k xs)

  -- a total that leaves out the row of a key
  pub sum_by-exclude :
      (w : A → ℕ) (k : ℕ) (old : A) (rows : List A)
      → UniqueKeys rows
      → get k rows ≡ some old
      → sum_by (λ x. if key x == k then 0 else w x) rows + w old ≡ sum_by w rows
  sum_by-exclude w k old [] u h = ground arith
  sum_by-exclude w k old (x ∷ xs) u h = elim (Bool-cases (key x == k)) [
    | inl e ↦
        let zero_left : count_if (λ y. key y == k) xs ≡ 0 = ground (arith, u k) in
        ground (arith, exclude_away w k xs zero_left)
    | inr e ↦ ground (arith, sum_by-exclude w k old xs (UniqueKeys-tail x xs u))
  ]
