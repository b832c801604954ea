-- ===== src/Prelude/Pairs.antt =====
-- Tables in which no two rows stand in a relation that the code forbids.
use Prim.Native.Nat.{ℕ}
use mathlib.Core.Path.{sym, ◌≡◌, ◌∙◌, refl, subst}
use mathlib.Core.Bool.{Bool, true, false}
use mathlib.Core.List.{List, [], ◌∷◌, map}
use mathlib.Core.Option.{some}
use mathlib.Core.Logic.{◌≢◌, inl, inr}
use native.Mathlib.Omega.{arith}
use uni_acmis.Prelude.Tests.{◌==◌, ==_iff, Bool-cases, some_injective}
use uni_acmis.Prelude.Lists.{any}
use uni_acmis.Prelude.Tables.{update_row, get}
use uni_acmis.Prelude.Saves.{get-update_row, get-update_row_away}

-- a test that no row passes fails at each row that is found
pub none_of-get :
    {A : Type 0} (key : A → ℕ) (p : A → Bool) (k : ℕ) (a : A) (rows : List A)
    → any p rows ≡ false
    → get key k rows ≡ some a
    → p a ≡ false
none_of-get key p k a [] h g = ground arith
none_of-get key p k a (x ∷ rows) h g = elim (Bool-cases (key x == k)) [
  | inl e ↦
      let same : x ≡ a = ground (arith, e, g) in subst (λ y. p y ≡ false) same (ground (arith, h))
  | inr e ↦ none_of-get key p k a rows (ground (arith, h)) (rw e at g)
]

module _ {A : Type 0} (key : A → ℕ) (bad : A → A → Bool) where
  -- no two rows of different keys stand in the relation
  abbrev pub Apart : List A → Type 0
  Apart rows =
      (i j : ℕ) (a b : A)
      → i ≢ j
      → get key i rows ≡ some a
      → get key j rows ≡ some b
      → bad a b ≡ false

  pub Apart-nil : Apart []
  Apart-nil i j a b d g h = ground arith

  -- a row that stands in it with no row of another key
  abbrev pub Fits : A → List A → Type 0
  Fits r rows = (j : ℕ) (b : A) → key r ≢ j → get key j rows ≡ some b → bad r b ≡ false

  module _ (bad_sym : (a b : A) → bad a b ≡ bad b a) where
    pub Apart-insert : (r : A) (rows : List A) → Fits r rows → Apart rows → Apart (r ∷ rows)
    Apart-insert r rows fits free i j a b d g h = elim (Bool-cases (key r == i)) [
      | inl e ↦
          let ei = (==_iff (key r) i).0 e in
          let ra : r ≡ a = some_injective (rw e at g) in
          let off : (key r == j) ≡ false = ground (arith, ei, d) in
          subst (λ x. bad x b ≡ false) ra (fits j b (λ q. d (sym ei ∙ q)) (rw off at h))
      | inr e ↦ elim (Bool-cases (key r == j)) [
        | inl f ↦
            let ej = (==_iff (key r) j).0 f in
            let rb : r ≡ b = some_injective (rw f at h) in
            subst (λ x. bad a x ≡ false) rb
              (bad_sym a r ∙ fits i a (λ q. d (sym q ∙ ej)) (rw e at g))
        | inr f ↦ free i j a b d (rw e at g) (rw f at h)
      ]
    ]

    pub Apart-update_row :
        (r old : A) (rows : List A)
        → get key (key r) rows ≡ some old
        → Fits r rows
        → Apart rows
        → Apart (update_row key r rows)
    Apart-update_row r old rows stored fits free i j a b d g h = elim (Bool-cases (key r == i)) [
      | inl e ↦
          let ei = (==_iff (key r) i).0 e in
          let saved =
            subst (λ k. get key k (update_row key r rows) ≡ some r) ei
              (get-update_row key r old rows stored) in
          let ra : r ≡ a = some_injective (sym saved ∙ g) in
          let off : (key r == j) ≡ false = ground (arith, ei, d) in
          subst (λ x. bad x b ≡ false) ra
            (fits j b (λ q. d (sym ei ∙ q)) (sym (get-update_row_away key r j rows off) ∙ h))
      | inr e ↦ elim (Bool-cases (key r == j)) [
        | inl f ↦
            let ej = (==_iff (key r) j).0 f in
            let saved =
              subst (λ k. get key k (update_row key r rows) ≡ some r) ej
                (get-update_row key r old rows stored) in
            let rb : r ≡ b = some_injective (sym saved ∙ h) in
            subst (λ x. bad a x ≡ false) rb
              (bad_sym a r
                ∙ fits i a (λ q. d (sym q ∙ ej)) (sym (get-update_row_away key r i rows e) ∙ g))
        | inr f ↦
            free i j a b d (sym (get-update_row_away key r i rows e) ∙ g)
              (sym (get-update_row_away key r j rows f) ∙ h)
      ]
    ]

  -- a change of all rows that keeps keys and the relation
  module _ (f : A → A) (key_f : (a : A) → key (f a) ≡ key a) where
    pub get-map :
        (k : ℕ) (b : A) (rows : List A)
        → get key k (map f rows) ≡ some b
        → (a : A) × (get key k rows ≡ some a) × (f a ≡ b)
    get-map k b [] h = ground arith
    get-map k b (x ∷ rows) h = elim (Bool-cases (key x == k)) [
      | inl e ↦
          let e' : (key (f x) == k) ≡ true = rw (key_f x) e in
          (x, rw e refl, some_injective (rw e' at h))
      | inr e ↦
          let e' : (key (f x) == k) ≡ false = rw (key_f x) e in
          let (a, g, s) = get-map k b rows (rw e' at h) in (a, rw e g, s)
    ]

    pub Apart-map :
        ((a b : A) → bad (f a) (f b) ≡ bad a b) → (rows : List A) → Apart rows → Apart (map f rows)
    Apart-map same rows free i j a b d g h =
        let (a', ga, ea) = get-map i a rows g in
        let (b', gb, eb) = get-map j b rows h in
        subst (λ x. bad x b ≡ false) ea
          (subst (λ y. bad (f a') y ≡ false) eb (same a' b' ∙ free i j a' b' d ga gb))
