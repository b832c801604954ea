-- ===== src/Examples/SyncRuns.antt =====
-- Runs of the sync engine, with a counter that one handler adds to.
use native.Mathlib.Omega.{arith}
use uni_acmis.Prelude.{ℕ, ◌+◌, ◌≡◌, ◌≢◌, refl, Option, none, some, true, [], ◌∷◌}
use uni_acmis.Core.Sync.{
  applied, duplicate, last_write_wins, Target, Change, Actor, SyncOperationInput, Failure,
  SyncHandler, returns, crashes, Store, Overwrite,
}
use uni_acmis.Core.Sync.Engine.{
  screen, get_handler, find_operation, update_operation, claim, apply_operation, apply_batch,
  claim_and_run, run_handler, finish, mark_rejected, rejected_outcome, audit_overwrites,
  settle_applied,
}
use uni_acmis.Core.Sync.Replay.{replay_returns_first_result, batch_replay}
use uni_acmis.Core.Sync.Effects.{Settled, apply_batch-Settled}
use uni_acmis.Core.Sync.Records.{unapplied_keeps_records}

abbrev lecturer : Actor
lecturer = record { pk = some 1; has_perm = λ _. true }

abbrev target : Target
target = record { content_type = 4; object_id = 17 }

abbrev change : Change
change = record { field = "score"; old = "40"; new = "70" }

abbrev marks_handler : SyncHandler ℕ ℕ ℕ
marks_handler = record {
  entity = "marks";
  actions = "update" ∷ [];
  conflict_policy = last_write_wins;
  required_permission = "";
  apply = λ op actor total.
      (returns (total + op.payload) (some target) (change ∷ []), total + op.payload);
}

abbrev broken_handler : SyncHandler ℕ ℕ ℕ
broken_handler = record marks_handler { apply = λ op actor total. (crashes "disk full", total + 1) }

abbrev operation : SyncOperationInput ℕ
operation = record {
  client_op_id = "a1";
  entity = "marks";
  action = "update";
  payload = 5;
  client_timestamp = none;
  device_id = "tablet";
}

abbrev empty_store : Store ℕ ℕ ℕ
empty_store = record { operations = []; conflicts = []; overwrites = []; records = 0 }

abbrev open_port : Overwrite → Option Failure
open_port o = none

abbrev later_operation : SyncOperationInput ℕ
later_operation = record operation { client_op_id = "b2"; payload = 7 }

first_applied :
    (apply_operation open_port (marks_handler ∷ []) operation (some lecturer) empty_store).0.status
    ≡ applied
unfolding apply_operation screen get_handler claim_and_run find_operation claim run_handler finish
    update_operation audit_overwrites settle_applied
first_applied = refl

replay_returns_first_result_example :
    let first =
      apply_operation open_port (marks_handler ∷ []) operation (some lecturer) empty_store in
    let later =
      (apply_batch open_port (marks_handler ∷ []) none (later_operation ∷ []) first.1).1 in
    apply_operation open_port (marks_handler ∷ []) operation (some lecturer) later ≡ (
      record {
        client_op_id = "a1";
        entity = "marks";
        status = duplicate;
        result = first.0.result;
        error = none;
        conflict_id = none;
      },
      later,
    )
replay_returns_first_result_example =
    replay_returns_first_result open_port (marks_handler ∷ []) (some lecturer) operation empty_store
      none (later_operation ∷ []) first_applied

batch_replay_example :
    let after =
      (apply_batch open_port (marks_handler ∷ []) (some lecturer) (operation ∷ []) empty_store).1 in
    (apply_batch open_port (marks_handler ∷ []) (some lecturer) (operation ∷ []) after).1 ≡ after
batch_replay_example =
    batch_replay open_port (marks_handler ∷ []) (some lecturer) (operation ∷ []) empty_store

apply_batch-Settled_example :
    Settled
      (apply_batch open_port
        (broken_handler ∷ [])
        (some lecturer)
        (operation ∷ [])
        empty_store).1.operations
apply_batch-Settled_example =
    apply_batch-Settled open_port (broken_handler ∷ []) (some lecturer) (operation ∷ []) empty_store
      tt

crash_rejected :
    (apply_operation open_port (broken_handler ∷ []) operation (some lecturer) empty_store).0.status
    ≢ applied
unfolding apply_operation screen get_handler claim_and_run find_operation claim run_handler finish
    mark_rejected update_operation rejected_outcome
crash_rejected h = ground (arith, h)

unapplied_keeps_records_example :
    (apply_operation open_port
      (broken_handler ∷ [])
      operation
      (some lecturer)
      empty_store).1.records
    ≡ 0
unapplied_keeps_records_example =
    unapplied_keeps_records open_port (broken_handler ∷ []) (some lecturer) operation empty_store
      (λ o. refl) crash_rejected
