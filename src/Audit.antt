-- ===== src/Audit.antt =====
-- The audit trail: backend/apps/audit/services.py and the rows of backend/apps/audit/models.py.
-- SHA-256 over the previous hash and the payload is the parameter `digest`, with the type `H` of its
-- digests and their equality test; `json.dumps` with sorted keys is the parameter `dumps`.
pub mod Chain
pub mod Tamper
use uni_acmis.Prelude.{
  ℕ, zero, suc, ◌+◌, String, Option, none, some, Bool, true, false, List, [], ◌∷◌, ◌++◌, ltb, leb,
  ◌==◌, if◌then◌else◌, keep, not,
}

pub data AuditAction : Type 0 where
  create update delete login logout login_failed view_sensitive approve reject : AuditAction
  role_grant role_revoke sync_overwrite export mfa_enabled mfa_disabled : AuditAction

abbrev pub action_text : AuditAction → String
action_text create = "create"
action_text update = "update"
action_text delete = "delete"
action_text login = "login"
action_text logout = "logout"
action_text login_failed = "login_failed"
action_text view_sensitive = "view_sensitive"
action_text approve = "approve"
action_text reject = "reject"
action_text role_grant = "role_grant"
action_text role_revoke = "role_revoke"
action_text sync_overwrite = "sync_overwrite"
action_text export = "export"
action_text mfa_enabled = "mfa_enabled"
action_text mfa_disabled = "mfa_disabled"

-- what an entry says, before it is chained
pub record Content : Type 0 where
  pub content_type_id : Option ℕ
  pub object_id : String
  pub object_repr : String
  pub action : AuditAction
  pub field_name : String
  pub old_value : Option String
  pub new_value : Option String
  pub description : String
  pub reason : String
  pub actor_id : Option ℕ
  pub actor_name : String
  pub actor_role : String
  pub ip_address : Option String
  pub user_agent : String
  pub request_id : String

pub data Json : Type 0 where
  null : Json
  number : ℕ → Json
  word : String → Json

abbrev pub json_number : Option ℕ → Json
json_number none = null
json_number (some n) = number n

abbrev pub json_word : Option String → Json
json_word none = null
json_word (some s) = word s

-- `AuditLog`; times are ISO texts
pub record AuditLog (H : Type 0) : Type 0 where
  pub id : ℕ
  pub content : Content
  pub created_at : String
  pub prev_hash : H
  pub row_hash : H

-- the fields that the hash covers, in the order of their names
unfoldable pub payload_fields : Content → String → List (String × Json)
payload_fields c created_at =
    ("action", word (action_text c.action))
    ∷ ("actor_id", json_number c.actor_id)
    ∷ ("actor_name", word c.actor_name)
    ∷ ("actor_role", word c.actor_role)
    ∷ ("content_type_id", json_number c.content_type_id)
    ∷ ("created_at", word created_at)
    ∷ ("description", word c.description)
    ∷ ("field_name", word c.field_name)
    ∷ ("ip_address", json_word c.ip_address)
    ∷ ("new_value", json_word c.new_value)
    ∷ ("object_id", word c.object_id)
    ∷ ("object_repr", word c.object_repr)
    ∷ ("old_value", json_word c.old_value)
    ∷ ("reason", word c.reason)
    ∷ ("request_id", word c.request_id)
    ∷ []

-- why a walk of the chain stopped
pub data Detail : Type 0 where
  intact predecessor_differs contents_altered : Detail

pub record Report : Type 0 where
  pub ok : Bool
  pub checked : ℕ
  pub first_broken_id : Option ℕ
  pub detail : Detail

-- `canonical_payload`
unfoldable pub canonical_payload : (List (String × Json) → String) → Content → String → String
canonical_payload dumps c created_at = dumps (payload_fields c created_at)

module _ {H : Type 0} where
  unfoldable pub last_hash : H → List (AuditLog H) → H
  last_hash h [] = h
  last_hash h (e ∷ log) = last_hash e.row_hash log

  -- the key of a new row
  unfoldable pub next_id : ℕ → List (AuditLog H) → ℕ
  next_id n [] = n + 1
  next_id n (e ∷ log) = next_id e.id log

  -- `queryset[:limit] if limit else queryset`
  unfoldable pub limited : Option ℕ → List (AuditLog H) → List (AuditLog H)
  limited none log = log
  limited (some zero) log = log
  limited (some (suc n)) [] = []
  limited (some (suc zero)) (e ∷ log) = e ∷ []
  limited (some (suc (suc n))) (e ∷ log) = e ∷ limited (some (suc n)) log

module _ {H : Type 0} (eqb : H → H → Bool) (dumps : List (String × Json) → String)
    (digest : H → String → H) (genesis : H) where
  -- `_write`, under the chain's lock, on the rows in the order of their ids
  unfoldable pub write : Content → String → List (AuditLog H) → List (AuditLog H)
  write c created_at log =
      let prev_hash = last_hash genesis log in
      log
      ++ record {
        id = next_id 0 log;
        content = c;
        created_at = created_at;
        prev_hash = prev_hash;
        row_hash = digest prev_hash (canonical_payload dumps c created_at);
      }
        ∷ []

  -- the loop of `verify_chain`
  unfoldable pub walk : H → ℕ → List (AuditLog H) → Report
  walk expected checked [] = record {
    ok = true;
    checked = checked;
    first_broken_id = none;
    detail = intact;
  }
  walk expected checked (e ∷ log) =
      let rest = walk e.row_hash (checked + 1) log in
      if not (eqb e.prev_hash expected)
      then record {
        ok = false;
        checked = checked;
        first_broken_id = some e.id;
        detail = predecessor_differs;
      }
      else if not
          (eqb (digest e.prev_hash (canonical_payload dumps e.content e.created_at)) e.row_hash)
      then record {
        ok = false;
        checked = checked;
        first_broken_id = some e.id;
        detail = contents_altered;
      }
      else rest

  unfoldable pub verify_chain : ℕ → Option ℕ → List (AuditLog H) → Report
  verify_chain start_id limit log =
      let before = keep (λ e. leb e.id start_id) log in
      let entries = limited limit (keep (λ e. ltb start_id e.id) log) in
      walk (if start_id == 0 then genesis else last_hash genesis before) 0 entries
