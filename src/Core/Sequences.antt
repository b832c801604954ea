-- ===== src/Core/Sequences.antt =====
-- Counters for identifiers: `IdSequence` of backend/apps/core/models.py.
pub mod Distinct
use text.Mathlib.Text.{◌==◌ as str_eq}
use uni_acmis.Prelude.{
  ℕ, ◌+◌, String, Option, none, some, Bool, true, false, List, [], ◌∷◌, if◌then◌else◌, or_else,
  find_first,
}

pub record IdSequence : Type 0 where
  pub scope : String
  pub last_value : ℕ

-- the next value of a scope: the row, created at nought where there was none, is locked and saved
unfoldable pub allocate : List IdSequence → (scope : String) → List IdSequence × ℕ
allocate [] scope = (record { scope = scope; last_value = 1 } ∷ [], 1)
allocate (row ∷ rows) scope =
    let rest = allocate rows scope in
    if str_eq row.scope scope
    then (record row { last_value = row.last_value + 1 } ∷ rows, row.last_value + 1)
    else (row ∷ rest.0, rest.1)

-- A call of `allocate` in a transaction of its caller, which holds the lock of the row to its end: a
-- rollback takes the counter back, and the row too if it was created.
unfoldable pub transact :
    List IdSequence → (scope : String) → (commits : Bool) → List IdSequence × ℕ
transact rows scope true = allocate rows scope
transact rows scope false = (rows, (allocate rows scope).1)

unfoldable pub peek : List IdSequence → (scope : String) → ℕ
peek [] scope = 0
peek (row ∷ rows) scope =
    let rest = peek rows scope in if str_eq row.scope scope then row.last_value else rest
