-- ===== src/Core/Sync/Engine.antt =====
-- backend/apps/core/sync/engine.py: one operation, and a batch of them.
use text.Mathlib.Text.{◌==◌ as str_eq}
use Prim.Native.String.{◌++◌ as joined}
use uni_acmis.Prelude.{
  ℕ, ◌+◌, String, Option, none, some, Bool, false, not, List, [], ◌∷◌, ◌++◌, if◌then◌else◌, any,
  length,
}
use uni_acmis.Core.Sync.{
  SyncStatus, pending, applied, duplicate, conflict, rejected, ConflictPolicy, last_write_wins,
  flag_for_review, ErrorCode, unknown_entity, unsupported_action, permission_denied, sync_conflict,
  validation_error, sync_error, domain, Target, Change, Detected, shown, clip, Actor,
  SyncOperationInput, Ending, returns, detects, invalid, refuses, crashes, SyncHandler,
  SyncOperation, Failure, malformed, refused, unexpected, Overwrite, Store, OperationOutcome,
}

-- `actor and actor.has_perm(permission)`
abbrev pub permitted : Option Actor → String → Bool
permitted none permission = false
permitted (some actor) permission = actor.has_perm permission

abbrev pub pk_of : Option Actor → Option ℕ
pk_of none = none
pk_of (some actor) = actor.pk

-- the error that the client is shown of an exception
unfoldable pub error_of : Failure → ErrorCode × String
error_of (malformed details) = (validation_error, "The queued data is not valid.")
error_of (refused code message) = (domain code, message)
error_of (unexpected text) = (sync_error, "The operation could not be applied.")

-- the text that `_mark_rejected` is given of it
unfoldable pub detail_of : Failure → String
detail_of (malformed details) = details
detail_of (refused code message) = message
detail_of (unexpected text) = text

abbrev pub changes_to_audit : ConflictPolicy → List Change → List Change
changes_to_audit last_write_wins cs = cs
changes_to_audit flag_for_review cs = []

module _ {P R : Type 0} where
  abbrev pub has_id : String → SyncOperation P R → Bool
  has_id i row = str_eq row.client_op_id i

  -- `SyncOperation.objects.filter(client_op_id=i).first()`
  unfoldable pub find_operation : String → List (SyncOperation P R) → Option (SyncOperation P R)
  find_operation i [] = none
  find_operation i (row ∷ rows) = if has_id i row then some row else find_operation i rows

  -- an update of the rows with an id
  unfoldable pub update_operation :
      String
      → (SyncOperation P R → SyncOperation P R)
      → List (SyncOperation P R)
      → List (SyncOperation P R)
  update_operation i f [] = []
  update_operation i f (row ∷ rows) =
      (if has_id i row then f row else row) ∷ update_operation i f rows

  unfoldable pub rejected_outcome : SyncOperationInput P → ErrorCode → String → OperationOutcome R
  rejected_outcome op code message = record {
    client_op_id = op.client_op_id;
    entity = op.entity;
    status = rejected;
    result = none;
    error = some (code, message);
    conflict_id = none;
  }

  -- the row that claims an operation id
  unfoldable pub claim : SyncOperationInput P → Option Actor → SyncOperation P R
  claim op actor = record {
    client_op_id = op.client_op_id;
    entity = op.entity;
    action = op.action;
    payload = op.payload;
    client_timestamp = op.client_timestamp;
    device_id = op.device_id;
    submitted_by = pk_of actor;
    status = pending;
    result = none;
    error_detail = "";
    target = none;
  }

  abbrev pub outcome :
      SyncOperationInput P
      → SyncStatus
      → Option R
      → Option (ErrorCode × String)
      → Option ℕ
      → OperationOutcome R
  outcome op status result error conflict_id = record {
    client_op_id = op.client_op_id;
    entity = op.entity;
    status = status;
    result = result;
    error = error;
    conflict_id = conflict_id;
  }

module _ {P R S : Type 0} where
  -- `get_handler`
  unfoldable pub get_handler : String → List (SyncHandler P R S) → Option (SyncHandler P R S)
  get_handler entity [] = none
  get_handler entity (h ∷ hs) = if str_eq h.entity entity then some h else get_handler entity hs

  -- `_mark_rejected`
  unfoldable pub mark_rejected : String → String → Store P R S → Store P R S
  mark_rejected i detail s = record s {
    operations =
        update_operation i
          (λ row. record row { status = rejected; error_detail = clip 2000 detail }) s.operations;
  }

  -- `_record_conflict`, with the key that the new conflict gets
  unfoldable pub record_conflict : SyncOperationInput P → Detected → Store P R S → ℕ × Store P R S
  record_conflict op d s =
      let pk = length s.conflicts + 1 in
      (
        pk,
        record s {
          operations =
              update_operation op.client_op_id
                (λ row. record row { status = conflict; error_detail = clip 2000 d.message })
                s.operations;
          conflicts =
              s.conflicts
              ++ record {
                pk = pk;
                sync_operation = op.client_op_id;
                entity = op.entity;
                target = d.target;
                field_name = d.field_name;
                server_value = shown d.server_value;
                client_value = shown d.client_value;
                server_updated_at = d.server_updated_at;
                client_timestamp = op.client_timestamp;
              }
                ∷ [];
        },
      )

  -- the row as the handler's return settles it
  unfoldable pub settle_applied :
      SyncOperationInput P → R → Option Target → Store P R S → Store P R S
  settle_applied op result target s = record s {
    operations =
        update_operation op.client_op_id
          (λ row. record row { status = applied; result = some result; target = target })
          s.operations;
  }

  -- `_audit_overwrites`. The audit port is a parameter: at an entry it records it, or raises. The loop stops at the first that raises, and the entries before it stay.
  unfoldable pub audit_overwrites :
      (Overwrite → Option Failure)
      → SyncOperationInput P
      → Option Target
      → List Change
      → Store P R S
      → Option Failure × Store P R S
  audit_overwrites audit_port op target [] s = (none, s)
  audit_overwrites audit_port op target (c ∷ cs) s =
      let e : Overwrite = record {
        client_op_id = op.client_op_id;
        device_id = op.device_id;
        target = target;
        change = c;
      } in
      let rest =
        audit_overwrites audit_port op target cs
          (record s { overwrites = s.overwrites ++ e ∷ [] }) in
      elim (audit_port e) [ none ↦ rest | some failure ↦ (some failure, s) ]

  -- the outcome when a handler has returned and its overwrites are audited, or the audit has raised
  unfoldable pub finish :
      SyncOperationInput P → R → Option Failure × Store P R S → OperationOutcome R × Store P R S
  finish op result (none, s) = (outcome op applied (some result) none none, s)
  finish op result (some failure, s) = (
    outcome op rejected none (some (error_of failure)) none,
    mark_rejected op.client_op_id (detail_of failure) s,
  )

  -- The part of `apply_operation` after the id is claimed. `s` holds the claim; what the handler
  -- wrote is kept only if it returned, since its savepoint is rolled back otherwise.
  unfoldable pub run_handler :
      (Overwrite → Option Failure)
      → ConflictPolicy
      → SyncOperationInput P
      → Ending R × S
      → Store P R S
      → OperationOutcome R × Store P R S
  run_handler audit_port policy op (returns result target overwrote, written) s =
      let s' = settle_applied op result target (record s { records = written }) in
      finish op result
        (audit_overwrites audit_port op target (changes_to_audit policy overwrote) s')
  run_handler audit_port policy op (detects d, written) s =
      let filed = record_conflict op d s in
      (outcome op conflict none (some (sync_conflict, d.message)) (some filed.0), filed.1)
  run_handler audit_port policy op (invalid details, written) s = (
    outcome op rejected none (some (validation_error, "The queued data is not valid.")) none,
    mark_rejected op.client_op_id details s,
  )
  run_handler audit_port policy op (refuses code message, written) s = (
    outcome op rejected none (some (domain code, message)) none,
    mark_rejected op.client_op_id message s,
  )
  run_handler audit_port policy op (crashes text, written) s = (
    outcome op rejected none (some (sync_error, "The operation could not be applied.")) none,
    mark_rejected op.client_op_id text s,
  )

  -- The checks before the claim: the handler to use, or the reason for a rejection.
  unfoldable pub screen :
      List (SyncHandler P R S)
      → SyncOperationInput P
      → Option Actor
      → Option (SyncHandler P R S) × OperationOutcome R
  screen handlers op actor = elim (get_handler op.entity handlers) [
    | none ↦ (
      none,
      rejected_outcome op unknown_entity
          (joined "No sync handler is registered for '" (joined op.entity "'.")),
    )
    | some h ↦
        if not (any (str_eq op.action) h.actions)
        then (
          none,
          rejected_outcome op unsupported_action (
              joined "'" (
                joined op.entity
                  (joined "' does not support the '" (joined op.action "' action.")))),
        )
        else if not (permitted actor h.required_permission)
        then (
          none,
          rejected_outcome op permission_denied
              (joined "You do not have permission to sync '" (joined op.entity "'.")),
        )
        else (some h, rejected_outcome op sync_error "Could not record the operation.")
  ]

  -- what follows once the checks have named a handler
  unfoldable pub claim_and_run :
      (Overwrite → Option Failure)
      → SyncHandler P R S
      → SyncOperationInput P
      → Option Actor
      → Store P R S
      → OperationOutcome R × Store P R S
  claim_and_run audit_port h op actor s = elim (find_operation op.client_op_id s.operations) [
    | some existing ↦ (
      record {
        client_op_id = op.client_op_id;
        entity = existing.entity;
        status = duplicate;
        result = existing.result;
        error = none;
        conflict_id = none;
      },
      s,
    )
    | none ↦
        run_handler audit_port h.conflict_policy op (h.apply op actor s.records)
          (record s { operations = s.operations ++ claim op actor ∷ [] })
  ]

  unfoldable pub apply_operation :
      (Overwrite → Option Failure)
      → List (SyncHandler P R S)
      → SyncOperationInput P
      → Option Actor
      → Store P R S
      → OperationOutcome R × Store P R S
  apply_operation audit_port handlers op actor s =
      let screened = screen handlers op actor in
      elim screened.0 [ none ↦ (screened.1, s) | some h ↦ claim_and_run audit_port h op actor s ]

  unfoldable pub apply_batch :
      (Overwrite → Option Failure)
      → List (SyncHandler P R S)
      → Option Actor
      → List (SyncOperationInput P)
      → Store P R S
      → List (OperationOutcome R) × Store P R S
  apply_batch audit_port handlers actor [] s = ([], s)
  apply_batch audit_port handlers actor (op ∷ ops) s =
      let first = apply_operation audit_port handlers op actor s in
      let rest = apply_batch audit_port handlers actor ops first.1 in (first.0 ∷ rest.0, rest.1)
