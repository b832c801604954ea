-- ===== src/Core/Sync/Effects.antt =====
-- What an operation does to the records, the ledger and the audit entries, by its outcome.
use text.Mathlib.TextPositions.{eq_refl}
use mathlib.Core.Path.{subst}
use uni_acmis.Prelude.{
  String, ◌≢◌, sym, Option, none, some, List, [], ◌∷◌, ◌++◌, arith, Option-cases, inl, inr, All,
}
use uni_acmis.Core.Sync.{
  pending, ConflictPolicy, SyncOperationInput, Ending, returns, detects, invalid, refuses, crashes,
  SyncOperation, Failure, Overwrite, Store, Actor, SyncHandler,
}
use uni_acmis.Core.Sync.Engine.{
  find_operation, update_operation, claim, mark_rejected, record_conflict, settle_applied, finish,
  changes_to_audit, run_handler, screen, claim_and_run, apply_operation, apply_batch,
}
use uni_acmis.Core.Sync.Ledger.{operations-audit_overwrites}

module _ {P R : Type 0} where
  -- no row is left pending
  abbrev pub Settled : List (SyncOperation P R) → Type 0
  Settled rows = All (λ row. row.status ≢ pending) rows

  Settled-update :
      (i : String) (f : SyncOperation P R → SyncOperation P R) (rows : List (SyncOperation P R))
      → ((row : SyncOperation P R) → (f row).status ≢ pending)
      → Settled rows
      → Settled (update_operation i f rows)
  unfolding update_operation
  Settled-update i f [] g h = tt
  Settled-update i f (row ∷ rows) g h = (ground (arith, g row, h.0), Settled-update i f rows g h.1)

  Settled-update_claim :
      (op : SyncOperationInput P) (actor : Option Actor) (f : SyncOperation P R → SyncOperation P R)
      (rows : List (SyncOperation P R))
      → ((row : SyncOperation P R) → (f row).status ≢ pending)
      → Settled rows
      → Settled (update_operation op.client_op_id f (rows ++ claim op actor ∷ []))
  unfolding update_operation claim
  Settled-update_claim op actor f [] g h = (rw (eq_refl op.client_op_id) (g _), tt)
  Settled-update_claim op actor f (row ∷ rows) g h =
      (ground (arith, g row, h.0), Settled-update_claim op actor f rows g h.1)

module _ {P R S : Type 0} (audit_port : Overwrite → Option Failure) where
  Settled-finish :
      (op : SyncOperationInput P) (result : R) (a : Option Failure × Store P R S)
      → Settled a.1.operations
      → Settled (finish op result a).1.operations
  unfolding finish mark_rejected
  Settled-finish op result (none, s) h = h
  Settled-finish op result (some failure, s) h = Settled-update _ _ s.operations (λ row e. cc e) h

  Settled-run_handler :
      (policy : ConflictPolicy) (op : SyncOperationInput P) (actor : Option Actor)
      (e : Ending R × S) (s : Store P R S)
      → Settled s.operations
      → Settled
          (run_handler audit_port policy op e
            (record s { operations = s.operations ++ claim op actor ∷ [] })).1.operations
  unfolding run_handler settle_applied mark_rejected record_conflict
  Settled-run_handler policy op actor (returns result t cs, w) s h = Settled-finish op result _ (
      subst Settled
        (sym (operations-audit_overwrites audit_port op t (changes_to_audit policy cs) _))
        (Settled-update_claim op actor _ s.operations (λ row e. cc e) h))
  Settled-run_handler policy op actor (detects d, w) s h =
      Settled-update_claim op actor _ s.operations (λ row e. cc e) h
  Settled-run_handler policy op actor (invalid x, w) s h =
      Settled-update_claim op actor _ s.operations (λ row e. cc e) h
  Settled-run_handler policy op actor (refuses c x, w) s h =
      Settled-update_claim op actor _ s.operations (λ row e. cc e) h
  Settled-run_handler policy op actor (crashes x, w) s h =
      Settled-update_claim op actor _ s.operations (λ row e. cc e) h

  module _ (handlers : List (SyncHandler P R S)) (actor : Option Actor) where
    Settled-claim_and_run :
        (h : SyncHandler P R S) (op : SyncOperationInput P) (s : Store P R S)
        → Settled s.operations
        → Settled (claim_and_run audit_port h op actor s).1.operations
    unfolding claim_and_run
    Settled-claim_and_run h op s k =
        elim (Option-cases (find_operation op.client_op_id s.operations)) [
          | inl e ↦
              rw (e, claim_and_run)
                (Settled-run_handler h.conflict_policy op actor (h.apply op actor s.records) s k)
          | inr (row, e) ↦ rw (e, claim_and_run) k
        ]

    Settled-apply_operation :
        (op : SyncOperationInput P) (s : Store P R S)
        → Settled s.operations
        → Settled (apply_operation audit_port handlers op actor s).1.operations
    unfolding apply_operation
    Settled-apply_operation op s k = elim (Option-cases (screen handlers op actor).0) [
      | inl e ↦ rw (e, apply_operation) k
      | inr (h, e) ↦ rw (e, apply_operation) (Settled-claim_and_run h op s k)
    ]

    -- If no row of the ledger is pending before a batch that runs to its end, none is pending after it:
    -- each operation that it claimed is applied, in conflict or rejected, whatever the handlers do, also
    -- when they raise an unexpected exception.
    pub apply_batch-Settled :
        (ops : List (SyncOperationInput P)) (s : Store P R S)
        → Settled s.operations
        → Settled (apply_batch audit_port handlers actor ops s).1.operations
    unfolding apply_batch
    apply_batch-Settled [] s k = k
    apply_batch-Settled (op ∷ ops) s k = apply_batch-Settled ops _ (Settled-apply_operation op s k)
