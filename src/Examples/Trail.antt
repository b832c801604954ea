-- ===== src/Examples/Trail.antt =====
-- Runs of the audit trail, with a digest that keeps all that it covers.
use native.Mathlib.Omega.{arith}
use text.Mathlib.Text.{◌==◌ as str_eq}
use text.Mathlib.TextEquality.{eq_iff}
use uni_acmis.Prelude.{
  ◌≡◌, ◌≢◌, ◌↔◌, refl, String, none, some, Bool, true, false, ◌&&◌, List, [], ◌∷◌,
}
use uni_acmis.Audit.{
  Content, Json, null, number, word, AuditLog, intact, contents_altered, predecessor_differs,
  update, approve, verify_chain, canonical_payload, payload_fields, limited, walk,
}
use uni_acmis.Audit.Chain.{Numbered, write_all, written_trail_verifies}
use uni_acmis.Audit.Tamper.{altered_entry_detected, removed_entry_detected}

abbrev Digest : Type 0
Digest = List String

abbrev digest_eq : Digest → Digest → Bool
digest_eq [] [] = true
digest_eq [] (_ ∷ _) = false
digest_eq (_ ∷ _) [] = false
digest_eq (s ∷ ss) (t ∷ ts) = str_eq s t && digest_eq ss ts

digest_eq_iff : (a b : Digest) → (digest_eq a b ≡ true) ↔ (a ≡ b)
digest_eq_iff [] [] = ground arith
digest_eq_iff [] (_ ∷ _) = ground arith
digest_eq_iff (_ ∷ _) [] = ground arith
digest_eq_iff (s ∷ ss) (t ∷ ts) = ground (arith, eq_iff s t, digest_eq_iff ss ts)

abbrev digest_of : Digest → String → Digest
digest_of p q = q ∷ p

digest_of_injective :
    (p q : Digest) (x y : String) → digest_of p x ≡ digest_of q y → (p ≡ q) × (x ≡ y)
digest_of_injective p q x y h = ground (arith, h)

-- the payload's field names and the words among its values
abbrev dump : List (String × Json) → String
dump [] = ""
dump ((name, null) ∷ fields) = dump fields
dump ((name, number n) ∷ fields) = dump fields
dump ((name, word s) ∷ fields) = s

abbrev grade_change : Content
grade_change = record {
  content_type_id = some 4;
  object_id = "17";
  object_repr = "Mark";
  action = update;
  field_name = "score";
  old_value = some "40.00";
  new_value = some "70.00";
  description = "";
  reason = "Recount";
  actor_id = some 1;
  actor_name = "Registrar";
  actor_role = "registrar";
  ip_address = none;
  user_agent = "";
  request_id = "";
}

abbrev senate_approval : Content
senate_approval = record grade_change { action = approve; field_name = "status" }

written_trail_verifies_example :
    verify_chain digest_eq dump digest_of [] 0 none (
      write_all digest_eq digest_eq_iff dump digest_of []
        ((grade_change, "2026-01-01") ∷ (senate_approval, "2026-01-02") ∷ [])
        [])
    ≡ record { ok = true; checked = 2; first_broken_id = none; detail = intact }
written_trail_verifies_example =
    written_trail_verifies digest_eq digest_eq_iff dump digest_of []
      ((grade_change, "2026-01-01") ∷ (senate_approval, "2026-01-02") ∷ [])

abbrev first_entry : AuditLog Digest
first_entry = record {
  id = 1;
  content = grade_change;
  created_at = "2026-01-01";
  prev_hash = [];
  row_hash = "update" ∷ [];
}

abbrev second_entry : AuditLog Digest
second_entry = record {
  id = 2;
  content = senate_approval;
  created_at = "2026-01-02";
  prev_hash = "update" ∷ [];
  row_hash = "approve" ∷ "update" ∷ [];
}

trail_intact :
    (verify_chain digest_eq dump digest_of [] 0 none (first_entry ∷ second_entry ∷ [])).ok ≡ true
unfolding verify_chain walk limited canonical_payload payload_fields
trail_intact = refl

trail-Numbered : Numbered (first_entry ∷ second_entry ∷ [])
trail-Numbered = (omega arith, (omega arith, tt))

altered_differs :
    canonical_payload dump senate_approval "2026-01-01"
    ≢ canonical_payload dump grade_change "2026-01-01"
unfolding canonical_payload payload_fields
altered_differs h = ground (arith, (eq_iff "approve" "update").1 h)

altered_entry_detected_example :
    verify_chain digest_eq dump digest_of [] 0 none (
      record first_entry { content = senate_approval; created_at = "2026-01-01" }
      ∷ second_entry
      ∷ [])
    ≡ record { ok = false; checked = 0; first_broken_id = some 1; detail = contents_altered }
altered_entry_detected_example =
    altered_entry_detected digest_eq digest_eq_iff dump digest_of [] digest_of_injective []
      (second_entry ∷ []) first_entry senate_approval "2026-01-01" trail-Numbered trail_intact
      altered_differs

removed_entry_detected_example :
    verify_chain digest_eq dump digest_of [] 0 none (second_entry ∷ [])
    ≡ record { ok = false; checked = 0; first_broken_id = some 2; detail = predecessor_differs }
removed_entry_detected_example =
    removed_entry_detected digest_eq digest_eq_iff dump digest_of [] digest_of_injective [] []
      first_entry second_entry trail-Numbered trail_intact (λ h. ground (arith, h))
