-- ===== src/Audit/Chain.antt =====
-- Entries that `write` appends verify, in any number.
use uni_acmis.Prelude.{
  ℕ, ◌+◌, ◌<◌, ◌≡◌, ◌↔◌, refl, ◌∙◌, ap, String, none, Bool, true, List, [], ◌∷◌, ◌++◌, arith, keep,
  length, length-append, All, All-append, ltb, lt→ltb,
}
use uni_acmis.Audit.{
  Content, Json, AuditLog, intact, canonical_payload, last_hash, next_id, write, walk, limited,
  verify_chain,
}

-- every id is positive, so that a walk from 0 takes all entries
abbrev pub Numbered : {H : Type 0} → List (AuditLog H) → Type 0
Numbered log = All (λ e. 0 < e.id) log

module _ {H : Type 0} (dumps : List (String × Json) → String) (digest : H → String → H) where
  -- the hash that an entry should carry
  abbrev pub expected_hash : AuditLog H → H
  expected_hash e = digest e.prev_hash (canonical_payload dumps e.content e.created_at)

  -- each entry names its predecessor's hash and carries its own
  abbrev pub Linked : H → List (AuditLog H) → Type 0
  Linked h [] = Unit
  Linked h (e ∷ log) = (e.prev_hash ≡ h) × (e.row_hash ≡ expected_hash e) × Linked e.row_hash log

module _ {H : Type 0} (eqb : H → H → Bool) (eqb_iff : (a b : H) → (eqb a b ≡ true) ↔ (a ≡ b))
    (dumps : List (String × Json) → String) (digest : H → String → H) (genesis : H) where
  pub walk-Linked :
      (h : H) (n : ℕ) (log : List (AuditLog H))
      → (walk eqb dumps digest genesis h n log).ok ≡ true
      → Linked dumps digest h log
  unfolding walk
  walk-Linked h n [] k = tt
  walk-Linked h n (e ∷ log) k = ground (
    arith,
    eqb_iff e.prev_hash h,
    eqb_iff (expected_hash dumps digest e) e.row_hash,
    walk-Linked e.row_hash (n + 1) log,
  )

  pub Linked-walk :
      (h : H) (n : ℕ) (log : List (AuditLog H))
      → Linked dumps digest h log
      → walk eqb dumps digest genesis h n log
        ≡ record { ok = true; checked = n + length log; first_broken_id = none; detail = intact }
  unfolding walk
  Linked-walk h n [] k = ground arith
  Linked-walk h n (e ∷ log) k = ground (
    arith,
    eqb_iff e.prev_hash h,
    eqb_iff (expected_hash dumps digest e) e.row_hash,
    Linked-walk e.row_hash (n + 1) log k.2,
  )

  Linked-append :
      (h : H) (log : List (AuditLog H)) (e : AuditLog H)
      → Linked dumps digest h log
      → e.prev_hash ≡ last_hash h log
      → e.row_hash ≡ expected_hash dumps digest e
      → Linked dumps digest h (log ++ e ∷ [])
  unfolding last_hash
  Linked-append h [] e k p r = (p, r, tt)
  Linked-append h (x ∷ log) e k p r = (k.0, k.1, Linked-append x.row_hash log e k.2 p r)

  keep-All : (log : List (AuditLog H)) → Numbered log → keep (λ e. ltb 0 e.id) log ≡ log
  keep-All [] h = refl
  keep-All (e ∷ log) h = rw (lt→ltb 0 e.id h.0, keep-All log h.1)

  pub verify_whole :
      (log : List (AuditLog H))
      → Numbered log
      → verify_chain eqb dumps digest genesis 0 none log
        ≡ walk eqb dumps digest genesis genesis 0 log
  unfolding verify_chain limited
  verify_whole log n = rw (keep-All log n)

  pub next_id_pos : (n : ℕ) (log : List (AuditLog H)) → 0 < next_id n log
  unfolding next_id
  next_id_pos n [] = omega arith
  next_id_pos n (e ∷ log) = next_id_pos e.id log

  abbrev pub write_all : List (Content × String) → List (AuditLog H) → List (AuditLog H)
  write_all [] log = log
  write_all (c ∷ cs) log = write_all cs (write eqb dumps digest genesis c.0 c.1 log)

  Numbered-write :
      (c : Content) (at : String) (log : List (AuditLog H))
      → Numbered log
      → Numbered (write eqb dumps digest genesis c at log)
  unfolding write
  Numbered-write c at log n = All-append _ log _ n (next_id_pos 0 log, tt)

  Linked-write :
      (c : Content) (at : String) (log : List (AuditLog H))
      → Linked dumps digest genesis log
      → Linked dumps digest genesis (write eqb dumps digest genesis c at log)
  unfolding write
  Linked-write c at log k = Linked-append genesis log _ k refl refl

  length-write :
      (c : Content) (at : String) (log : List (AuditLog H))
      → length (write eqb dumps digest genesis c at log) ≡ length log + 1
  unfolding write
  length-write c at log = length-append log _

  write_all_keeps :
      (cs : List (Content × String)) (log : List (AuditLog H))
      → Numbered log
      → Linked dumps digest genesis log
      → Numbered (write_all cs log)
        × Linked dumps digest genesis (write_all cs log)
        × (length (write_all cs log) ≡ length log + length cs)
  write_all_keeps [] log n k = (n, k, omega arith)
  write_all_keeps (c ∷ cs) log n k =
      let (n', k', l) =
        write_all_keeps cs _ (Numbered-write c.0 c.1 log n) (Linked-write c.0 c.1 log k) in
      (n', k', omega (arith, l, length-write c.0 c.1 log))

  -- A trail that `_write` alone has built, from nothing and by any number of entries, verifies as
  -- intact, and the report counts every entry.
  pub written_trail_verifies :
      (cs : List (Content × String))
      → verify_chain eqb dumps digest genesis 0 none (write_all cs [])
        ≡ record { ok = true; checked = length cs; first_broken_id = none; detail = intact }
  written_trail_verifies cs =
      let (n, k, l) = write_all_keeps cs [] tt tt in
      verify_whole (write_all cs []) n
      ∙ Linked-walk genesis 0 (write_all cs []) k
      ∙ ap (λ m. record { ok = true; checked = m; first_broken_id = none; detail = intact })
          (omega (arith, l))
