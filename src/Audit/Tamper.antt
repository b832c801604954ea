-- ===== src/Audit/Tamper.antt =====
-- What a walk of the chain detects, and what it does not.
use uni_acmis.Prelude.{
  ℕ, ◌+◌, ◌≡◌, ◌≢◌, ◌↔◌, refl, ◌∙◌, sym, ap, String, none, some, Bool, true, false, List, [], ◌∷◌,
  ◌++◌, arith, length, All-append, ◌<◌,
}
use uni_acmis.Audit.{
  Content, Json, AuditLog, Report, predecessor_differs, contents_altered, canonical_payload, walk,
  last_hash, verify_chain,
}
use uni_acmis.Audit.Chain.{Linked, expected_hash, walk-Linked, Linked-walk, Numbered, verify_whole}

module _ {H : Type 0} (eqb : H → H → Bool) (eqb_iff : (a b : H) → (eqb a b ≡ true) ↔ (a ≡ b))
    (dumps : List (String × Json) → String) (digest : H → String → H) (genesis : H)
    (collision_free : (p q : H) (x y : String) → digest p x ≡ digest q y → (p ≡ q) × (x ≡ y)) where
  walk_past :
      (h : H) (n : ℕ) (xs ys : List (AuditLog H))
      → Linked dumps digest h xs
      → walk eqb dumps digest genesis h n (xs ++ ys)
        ≡ walk eqb dumps digest genesis (last_hash h xs) (n + length xs) ys
  unfolding walk last_hash
  walk_past h n [] ys k = ground arith
  walk_past h n (e ∷ xs) ys k = ground (
    arith,
    eqb_iff e.prev_hash h,
    eqb_iff (expected_hash dumps digest e) e.row_hash,
    walk_past e.row_hash (n + 1) xs ys k.2,
  )

  abbrev verified : List (AuditLog H) → Report
  verified log = verify_chain eqb dumps digest genesis 0 none log

  Linked-left :
      (h : H) (xs ys : List (AuditLog H))
      → Linked dumps digest h (xs ++ ys)
      → Linked dumps digest h xs
  Linked-left h [] ys k = tt
  Linked-left h (e ∷ xs) ys k = (k.0, k.1, Linked-left e.row_hash xs ys k.2)

  Linked-right :
      (h : H) (xs ys : List (AuditLog H))
      → Linked dumps digest h (xs ++ ys)
      → Linked dumps digest (last_hash h xs) ys
  unfolding last_hash
  Linked-right h [] ys k = k
  Linked-right h (e ∷ xs) ys k = Linked-right e.row_hash xs ys k.2

  verified-Linked :
      (log : List (AuditLog H))
      → Numbered log
      → (verified log).ok ≡ true
      → Linked dumps digest genesis log
  verified-Linked log n k =
      walk-Linked eqb eqb_iff dumps digest genesis genesis 0 log
        (sym (ap (λ r. r.ok) (verify_whole eqb eqb_iff dumps digest genesis log n)) ∙ k)

  -- the payload of an entry
  abbrev pub payload : AuditLog H → String
  payload e = canonical_payload dumps e.content e.created_at

  walk_altered :
      (h : H) (n : ℕ) (e e' : AuditLog H) (ys : List (AuditLog H))
      → e.prev_hash ≡ h
      → e.row_hash ≡ expected_hash dumps digest e
      → e'.prev_hash ≡ e.prev_hash
      → e'.row_hash ≡ e.row_hash
      → payload e' ≢ payload e
      → walk eqb dumps digest genesis h n (e' ∷ ys) ≡ record {
        ok = false;
        checked = n;
        first_broken_id = some e'.id;
        detail = contents_altered;
      }
  unfolding walk
  walk_altered h n e e' ys p r p' r' differ =
      let differs : expected_hash dumps digest e' ≢ e'.row_hash =
        λ q. differ (collision_free e'.prev_hash e.prev_hash _ _ (q ∙ r' ∙ r)).1 in
      ground (
        arith,
        eqb_iff e'.prev_hash h,
        eqb_iff (expected_hash dumps digest e') e'.row_hash,
        differs,
      )

  Numbered-append : (xs ys : List (AuditLog H)) → Numbered (xs ++ ys) → Numbered xs × Numbered ys
  Numbered-append [] ys n = (tt, n)
  Numbered-append (e ∷ xs) ys n = let (a, b) = Numbered-append xs ys n.1 in ((n.0, a), b)

  -- A verified trail in which any one entry's covered fields are then changed, its hashes left as they
  -- were, is reported as broken at that entry: under a digest without collisions, and a change that
  -- the serialisation shows.
  pub altered_entry_detected :
      (xs ys : List (AuditLog H)) (e : AuditLog H) (c : Content) (at : String)
      → Numbered (xs ++ e ∷ ys)
      → (verified (xs ++ e ∷ ys)).ok ≡ true
      → canonical_payload dumps c at ≢ payload e
      → verified (xs ++ record e { content = c; created_at = at } ∷ ys) ≡ record {
        ok = false;
        checked = length xs;
        first_broken_id = some e.id;
        detail = contents_altered;
      }
  altered_entry_detected xs ys e c at n k differ =
      let e' = record e { content = c; created_at = at } in
      let (nx, ny) = Numbered-append xs (e ∷ ys) n in
      let linked = verified-Linked (xs ++ e ∷ ys) n k in
      let here = Linked-right genesis xs (e ∷ ys) linked in
      verify_whole eqb eqb_iff dumps digest genesis (xs ++ e' ∷ ys)
        (All-append (λ o. 0 < o.id) xs (e' ∷ ys) nx ny)
      ∙ walk_past genesis 0 xs (e' ∷ ys) (Linked-left genesis xs (e ∷ ys) linked)
      ∙ walk_altered (last_hash genesis xs) (0 + length xs) e e' ys here.0 here.1 refl refl differ
      ∙ ap
          (λ m. record {
            ok = false;
            checked = m;
            first_broken_id = some e.id;
            detail = contents_altered;
          })
          (omega arith)

  walk_removed :
      (h : H) (n : ℕ) (f : AuditLog H) (ys : List (AuditLog H))
      → f.prev_hash ≢ h
      → walk eqb dumps digest genesis h n (f ∷ ys) ≡ record {
        ok = false;
        checked = n;
        first_broken_id = some f.id;
        detail = predecessor_differs;
      }
  unfolding walk
  walk_removed h n f ys differ = ground (arith, eqb_iff f.prev_hash h, differ)

  -- A verified trail from which an entry with a successor is removed is reported as broken at the
  -- successor, if the removed entry's hash is not that of its predecessor.
  pub removed_entry_detected :
      (xs ys : List (AuditLog H)) (e f : AuditLog H)
      → Numbered (xs ++ e ∷ f ∷ ys)
      → (verified (xs ++ e ∷ f ∷ ys)).ok ≡ true
      → e.row_hash ≢ e.prev_hash
      → verified (xs ++ f ∷ ys) ≡ record {
        ok = false;
        checked = length xs;
        first_broken_id = some f.id;
        detail = predecessor_differs;
      }
  removed_entry_detected xs ys e f n k differ =
      let (nx, ny) = Numbered-append xs (e ∷ f ∷ ys) n in
      let linked = verified-Linked (xs ++ e ∷ f ∷ ys) n k in
      let here = Linked-right genesis xs (e ∷ f ∷ ys) linked in
      verify_whole eqb eqb_iff dumps digest genesis (xs ++ f ∷ ys)
        (All-append (λ o. 0 < o.id) xs (f ∷ ys) nx ny.1)
      ∙ walk_past genesis 0 xs (f ∷ ys) (Linked-left genesis xs (e ∷ f ∷ ys) linked)
      ∙ walk_removed (last_hash genesis xs) (0 + length xs) f ys
          (λ q. differ (sym here.2.0 ∙ q ∙ sym here.0))
      ∙ ap
          (λ m. record {
            ok = false;
            checked = m;
            first_broken_id = some f.id;
            detail = predecessor_differs;
          })
          (omega arith)

  -- Entries that are removed from the end of a verified trail leave no break: what is left verifies.
  pub removed_tail_undetected :
      (xs ys : List (AuditLog H))
      → Numbered (xs ++ ys)
      → (verified (xs ++ ys)).ok ≡ true
      → (verified xs).ok ≡ true
  removed_tail_undetected xs ys n k =
      let (nx, ny) = Numbered-append xs ys n in
      let linked = Linked-left genesis xs ys (verified-Linked (xs ++ ys) n k) in
      ap (λ r. r.ok)
        (verify_whole eqb eqb_iff dumps digest genesis xs nx
          ∙ Linked-walk eqb eqb_iff dumps digest genesis genesis 0 xs linked)
