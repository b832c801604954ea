-- ===== src/Core/Sync.antt =====
-- The sync engine: backend/apps/core/sync/engine.py, its handlers' contract in sync/handlers.py and
-- the ledger rows of backend/apps/core/models.py.
pub mod Engine
pub mod Ledger
pub mod Replay
pub mod Effects
pub mod Rows
pub mod Records
use uni_acmis.Prelude.{ℕ, zero, suc, String, Option, none, some, Bool, List}

pub data SyncStatus : Type 0 where
  pending applied duplicate conflict rejected : SyncStatus

pub data ConflictPolicy : Type 0 where
  last_write_wins flag_for_review : ConflictPolicy

pub data ErrorCode : Type 0 where
  unknown_entity unsupported_action permission_denied : ErrorCode
  sync_conflict validation_error sync_error : ErrorCode
  -- the code of a `DomainError`
  domain : String → ErrorCode

-- a saved object, by its content type and key
pub record Target : Type 0 where
  pub content_type : ℕ
  pub object_id : ℕ

-- an item of a handler's `overwrote` list
pub record Change : Type 0 where
  pub field : String
  pub old : String
  pub new : String

-- `SyncConflictDetected`
pub record Detected : Type 0 where
  pub field_name : String
  pub server_value : Option String
  pub client_value : Option String
  pub server_updated_at : Option ℕ
  pub target : Option Target
  pub message : String

-- `str(value)`, or the empty text for `None`
abbrev pub shown : Option String → String
shown none = ""
shown (some s) = s

-- `text[:n]`
unfoldable pub clip : ℕ → String → String
clip zero s = ""
clip (suc n) String.[] = ""
clip (suc n) (String.◌∷◌ c s) = String.◌∷◌ c (clip n s)

pub record Actor : Type 0 where
  pub pk : Option ℕ
  pub has_perm : String → Bool

-- `P` is the type of the payloads, `R` of the results, `S` of the records that handlers write.
pub record SyncOperationInput (P : Type 0) : Type 0 where
  pub client_op_id : String
  pub entity : String
  pub action : String
  pub payload : P
  pub client_timestamp : Option ℕ
  pub device_id : String

-- an exception of the audit port: a `DjangoValidationError`, a `DomainError` or any other one
pub data Failure : Type 0 where
  malformed : (details : String) → Failure
  refused : (code message : String) → Failure
  unexpected : (text : String) → Failure

-- how a handler's `apply` ends: it returns, or it raises
pub data Ending (R : Type 0) : Type 0 where
  returns : R → Option Target → List Change → Ending R
  detects : Detected → Ending R
  invalid : String → Ending R
  refuses : String → String → Ending R
  crashes : String → Ending R

-- a handler leaves the records as it has written them, also when it raises
pub record SyncHandler (P R S : Type 0) : Type 0 where
  pub entity : String
  pub actions : List String
  pub conflict_policy : ConflictPolicy
  pub required_permission : String
  pub apply : SyncOperationInput P → Option Actor → S → Ending R × S

-- a row of the idempotency ledger
pub record SyncOperation (P R : Type 0) : Type 0 where
  pub client_op_id : String
  pub entity : String
  pub action : String
  pub payload : P
  pub client_timestamp : Option ℕ
  pub device_id : String
  pub submitted_by : Option ℕ
  pub status : SyncStatus
  pub result : Option R
  pub error_detail : String
  pub target : Option Target

pub record SyncConflict : Type 0 where
  pub pk : ℕ
  pub sync_operation : String
  pub entity : String
  pub target : Option Target
  pub field_name : String
  pub server_value : String
  pub client_value : String
  pub server_updated_at : Option ℕ
  pub client_timestamp : Option ℕ

-- an entry that `_audit_overwrites` writes
pub record Overwrite : Type 0 where
  pub client_op_id : String
  pub device_id : String
  pub target : Option Target
  pub change : Change

pub record Store (P R S : Type 0) : Type 0 where
  pub operations : List (SyncOperation P R)
  pub conflicts : List SyncConflict
  pub overwrites : List Overwrite
  pub records : S

pub record OperationOutcome (R : Type 0) : Type 0 where
  pub client_op_id : String
  pub entity : String
  pub status : SyncStatus
  pub result : Option R
  pub error : Option (ErrorCode × String)
  pub conflict_id : Option ℕ
