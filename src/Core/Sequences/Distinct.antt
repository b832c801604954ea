-- ===== src/Core/Sequences/Distinct.antt =====
-- No two committed requests get one value of a counter.
use text.Mathlib.Text.{◌==◌ as str_eq}
use text.Mathlib.TextEquality.{eq_iff}
use uni_acmis.Prelude.{
  ℕ, ◌+◌, ◌≤◌, ◌≡◌, String, Bool, true, false, ◌&&◌, List, [], ◌∷◌, arith, All, ◌==◌, if◌then◌else◌,
}
use uni_acmis.Core.Sequences.{IdSequence, allocate, transact, peek}

-- the value issued is the next one of the scope, and the other scopes keep theirs
pub allocate-next :
    (rows : List IdSequence) (scope other : String)
    → ((allocate rows scope).1 ≡ peek rows scope + 1)
      × (peek (allocate rows scope).0 other
          ≡ (if str_eq scope other then peek rows scope + 1 else peek rows other))
unfolding allocate peek
allocate-next [] scope other = (ground arith, ground arith)
allocate-next (row ∷ rows) scope other =
    let (value, view) = allocate-next rows scope other in
    (
      ground (arith, value),
      ground
          (arith, value, view, eq_iff row.scope scope, eq_iff row.scope other, eq_iff scope other),
    )

-- what the requests of transactions that commit are answered, with the scope of each
abbrev pub answers : List IdSequence → List (String × Bool) → List (String × ℕ)
answers rows [] = []
answers rows ((scope, true) ∷ requests) =
    let next = transact rows scope true in (scope, next.1) ∷ answers next.0 requests
answers rows ((scope, false) ∷ requests) = answers (transact rows scope false).0 requests

abbrev pub same : String × ℕ → String × ℕ → Bool
same (s, m) (t, n) = str_eq s t && (m == n)

-- no two of the answers are the same
abbrev pub AllDistinct : List (String × ℕ) → Type 0
AllDistinct [] = Unit
AllDistinct (a ∷ rest) = All (λ b. same a b ≡ false) rest × AllDistinct rest

-- the answers of a scope are above its last value
answers-above :
    (rows : List IdSequence) (requests : List (String × Bool)) (s : String) (n : ℕ)
    → n ≤ peek rows s
    → All (λ b. same (s, n) b ≡ false) (answers rows requests)
unfolding transact
answers-above rows [] s n h = tt
answers-above rows ((scope, false) ∷ requests) s n h = answers-above rows requests s n h
answers-above rows ((scope, true) ∷ requests) s n h =
    let (value, view) = allocate-next rows scope s in
    (
      ground (arith, value, eq_iff s scope, h),
      answers-above (allocate rows scope).0 requests s n
          (ground (arith, view, eq_iff scope s, value, h)),
    )

-- Of any sequence of requests for values of counters, each in a transaction that commits or is rolled back,
-- from any table of counters, no two that commit are answered with one value of one scope.
pub answers-AllDistinct :
    (rows : List IdSequence) (requests : List (String × Bool)) → AllDistinct (answers rows requests)
unfolding transact
answers-AllDistinct rows [] = tt
answers-AllDistinct rows ((scope, false) ∷ requests) = answers-AllDistinct rows requests
answers-AllDistinct rows ((scope, true) ∷ requests) =
    let (value, view) = allocate-next rows scope scope in
    (
      answers-above (allocate rows scope).0 requests scope (allocate rows scope).1
          (ground (arith, value, view, eq_iff scope scope)),
      answers-AllDistinct (allocate rows scope).0 requests,
    )
