-- ===== src/Prelude/Runs.antt =====
-- Runs: sequences of steps between states, and what all of their states have.

-- a run of steps, as a chain from its first state to its last
pub data Run {S : Type 0} (Step : S → S → Type 0) : S → S → Type 0 where
  done : {s : S} → Run Step s s
  next : {a b c : S} → Step a b → Run Step b c → Run Step a c

-- what each step keeps, a run keeps
pub Run-keeps :
    {S : Type 0} (Step : S → S → Type 0) (P : S → Type 0) {a b : S}
    → ((s t : S) → Step s t → P s → P t)
    → Run Step a b
    → P a
    → P b
Run-keeps Step P keeps done p = p
Run-keeps Step P keeps (next {a} {b} {c} step rest) p =
    Run-keeps Step P keeps rest (keeps a b step p)
