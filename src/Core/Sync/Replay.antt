-- ===== src/Core/Sync/Replay.antt =====
-- Replay is safe: an operation is applied once, and a batch sent again changes nothing.
use text.Mathlib.TextPositions.{eq_refl}
use uni_acmis.Prelude.{
  String, ◌≡◌, refl, ◌∙◌, ap, Option, none, some, false, List, [], ◌∷◌, arith, Option-cases, inl,
  inr, ◌⊎◌, All,
}
use uni_acmis.Core.Sync.{
  SyncOperationInput, SyncOperation, Failure, Overwrite, Store, Actor, SyncHandler,
  OperationOutcome, applied, duplicate, rejected,
}
use uni_acmis.Core.Sync.Engine.{
  find_operation, rejected_outcome, screen, claim_and_run, apply_operation, apply_batch,
}
use uni_acmis.Core.Sync.Rows.{Shows, Shows-run_handler, find-apply_batch}
use uni_acmis.Core.Sync.Ledger.{unknown, claim_and_run_known, unknown-claim_and_run}

-- the answer to a repeated operation with a result
abbrev answer : {P R : Type 0} → SyncOperationInput P → Option R → OperationOutcome R
answer op result = record {
  client_op_id = op.client_op_id;
  entity = op.entity;
  status = duplicate;
  result = result;
  error = none;
  conflict_id = none;
}

module _ {P R S : Type 0} (audit_port : Overwrite → Option Failure)
    (handlers : List (SyncHandler P R S)) (actor : Option Actor) where
  abbrev accepted : SyncOperationInput P → Option (SyncHandler P R S)
  accepted op = (screen handlers op actor).0

  -- an operation that is refused before the claim, or whose id is in the ledger
  abbrev Handled : Store P R S → SyncOperationInput P → Type 0
  Handled s op = (accepted op ≡ none) ⊎ (unknown op.client_op_id s.operations ≡ false)

  apply_operation-Handled :
      (op : SyncOperationInput P) (s : Store P R S)
      → Handled s op
      → (apply_operation audit_port handlers op actor s).1 ≡ s
  unfolding apply_operation
  apply_operation-Handled op s k = elim (Option-cases (accepted op)) [
    | inl e ↦ rw (e, apply_operation)
    | inr (h, e) ↦
        rw (e, apply_operation)
          (claim_and_run_known audit_port handlers actor h op s (ground (arith, k, e)))
  ]

  -- ids stay in the ledger
  known_stays :
      (op : SyncOperationInput P) (s : Store P R S) (j : String)
      → unknown j s.operations ≡ false
      → unknown j (apply_operation audit_port handlers op actor s).1.operations ≡ false
  unfolding apply_operation
  known_stays op s j k = elim (Option-cases (accepted op)) [
    | inl e ↦ rw (e, apply_operation) k
    | inr (h, e) ↦
        rw (e, apply_operation)
          (unknown-claim_and_run audit_port handlers actor h op s j ∙ rw k refl)
  ]

  Handled-after :
      (op : SyncOperationInput P) (s : Store P R S)
      → Handled (apply_operation audit_port handlers op actor s).1 op
  unfolding apply_operation
  Handled-after op s = elim (Option-cases (accepted op)) [
    | inl e ↦ inl e
    | inr (h, e) ↦ inr (
        rw (e, apply_operation)
          (unknown-claim_and_run audit_port handlers actor h op s op.client_op_id
            ∙ rw (eq_refl op.client_op_id) (ground arith)))
  ]

  Handled-stays :
      (op : SyncOperationInput P) (s : Store P R S) (o : SyncOperationInput P)
      → Handled s o
      → Handled (apply_operation audit_port handlers op actor s).1 o
  Handled-stays op s o (inl e) = inl e
  Handled-stays op s o (inr k) = inr (known_stays op s o.client_op_id k)

  Handled-batch :
      (ops : List (SyncOperationInput P)) (s : Store P R S) (o : SyncOperationInput P)
      → Handled s o
      → Handled (apply_batch audit_port handlers actor ops s).1 o
  unfolding apply_batch
  Handled-batch [] s o k = k
  Handled-batch (op ∷ ops) s o k = Handled-batch ops _ o (Handled-stays op s o k)

  batch-Handled :
      (ops : List (SyncOperationInput P)) (s : Store P R S)
      → All (Handled (apply_batch audit_port handlers actor ops s).1) ops
  unfolding apply_batch
  batch-Handled [] s = tt
  batch-Handled (op ∷ ops) s = (Handled-batch ops _ op (Handled-after op s), batch-Handled ops _)

  batch_of_Handled :
      (ops : List (SyncOperationInput P)) (s : Store P R S)
      → All (Handled s) ops
      → (apply_batch audit_port handlers actor ops s).1 ≡ s
  unfolding apply_batch
  batch_of_Handled [] s k = refl
  batch_of_Handled (op ∷ ops) s k =
      ap (λ t. (apply_batch audit_port handlers actor ops t).1) (apply_operation-Handled op s k.0)
      ∙ batch_of_Handled ops s k.1

  -- A batch that is sent again in full by the same user, as a client does after a lost connection,
  -- leaves the records, the ledger, the conflicts and the audit entries as the first run left them.
  pub batch_replay :
      (ops : List (SyncOperationInput P)) (s : Store P R S)
      → let after = (apply_batch audit_port handlers actor ops s).1 in
        (apply_batch audit_port handlers actor ops after).1 ≡ after
  batch_replay ops s = batch_of_Handled ops _ (batch-Handled ops s)

module _ {P R S : Type 0} (audit_port : Overwrite → Option Failure)
    (handlers : List (SyncHandler P R S)) (actor : Option Actor) where
  replay_of_shown :
      (op : SyncOperationInput P) (s : Store P R S) (h : SyncHandler P R S)
      (row : SyncOperation P R)
      → (screen handlers op actor).0 ≡ some h
      → find_operation op.client_op_id s.operations ≡ some row
      → row.entity ≡ op.entity
      → apply_operation audit_port handlers op actor s ≡ (answer op row.result, s)
  unfolding apply_operation claim_and_run
  replay_of_shown op s h row a f e = rw (a, f, e, apply_operation, claim_and_run) refl

  screen-rejected : (op : SyncOperationInput P) → (screen handlers op actor).1.status ≡ rejected
  unfolding screen rejected_outcome
  screen-rejected op = ground arith

  -- an operation with the outcome "applied" has passed the checks, and the ledger has its row
  applied-Shows :
      (op : SyncOperationInput P) (s : Store P R S)
      → let first = apply_operation audit_port handlers op actor s in
        first.0.status ≡ applied
        → (h : SyncHandler P R S) × ((screen handlers op actor).0 ≡ some h)
          × Shows audit_port op first.0.result first.1
  unfolding apply_operation claim_and_run
  applied-Shows op s k = elim (Option-cases (screen handlers op actor).0) [
    | inl e ↦ absurd (ground (arith, screen-rejected op, rw (e, apply_operation) at k))
    | inr (h, e) ↦ (
      h,
      e,
      elim (Option-cases (find_operation op.client_op_id s.operations)) [
        | inl new ↦
            rw (e, new, apply_operation, claim_and_run)
              (Shows-run_handler audit_port h.conflict_policy op actor (h.apply op actor s.records)
                s new (rw (e, new, apply_operation, claim_and_run) at k))
        | inr (row, known) ↦
            absurd (ground (arith, rw (e, known, apply_operation, claim_and_run) at k))
      ],
    )
  ]

  -- An operation that was applied and is sent again by the same user, after any batch of any user, is
  -- answered as a duplicate with the result that the first outcome had and no error, and the second
  -- application changes neither the records, nor the ledger, nor the conflicts, nor the audit entries.
  pub replay_returns_first_result :
      (op : SyncOperationInput P) (s : Store P R S) (other : Option Actor)
      (ops : List (SyncOperationInput P))
      → let first = apply_operation audit_port handlers op actor s in
        let later = (apply_batch audit_port handlers other ops first.1).1 in
        first.0.status ≡ applied
        → apply_operation audit_port handlers op actor later ≡ (
          record {
            client_op_id = op.client_op_id;
            entity = op.entity;
            status = duplicate;
            result = first.0.result;
            error = none;
            conflict_id = none;
          },
          later,
        )
  replay_returns_first_result op s other ops k =
      let later =
        (apply_batch audit_port handlers other ops
          (apply_operation audit_port handlers op actor s).1).1 in
      let (h, e, (row, found, result, entity)) = applied-Shows op s k in
      let stays = find-apply_batch audit_port handlers other ops _ op.client_op_id row found in
      replay_of_shown op _ h row e stays entity ∙ ap (λ r. (answer op r, later)) result
