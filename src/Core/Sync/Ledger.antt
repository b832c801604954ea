-- ===== src/Core/Sync/Ledger.antt =====
-- The ledger's rows under the engine's updates.
use text.Mathlib.Text.{◌==◌ as str_eq}
use text.Mathlib.TextEquality.{eq_iff}
use uni_acmis.Prelude.{
  String, ◌≡◌, refl, ap, ◌∙◌, Option, none, some, Bool, false, List, [], ◌∷◌, ◌++◌, arith, is_none,
  Option-cases, inl, inr, ◌&&◌, not,
}
use uni_acmis.Core.Sync.{
  ConflictPolicy, Target, Change, SyncOperationInput, Ending, returns, detects, invalid, refuses,
  crashes, SyncOperation, Failure, Overwrite, Store, Actor, SyncHandler,
}
use uni_acmis.Core.Sync.Engine.{
  find_operation, update_operation, claim, mark_rejected, record_conflict, settle_applied,
  audit_overwrites, changes_to_audit, run_handler, finish, claim_and_run,
}

module _ {P R : Type 0} where
  -- whether an id is in the ledger
  abbrev pub unknown : String → List (SyncOperation P R) → Bool
  unknown i rows = is_none (find_operation i rows)

  abbrev pub KeepsId : (SyncOperation P R → SyncOperation P R) → Type 0
  KeepsId f = (row : SyncOperation P R) → (f row).client_op_id ≡ row.client_op_id

  pub unknown-update :
      (i j : String) (f : SyncOperation P R → SyncOperation P R) (rows : List (SyncOperation P R))
      → KeepsId f
      → unknown j (update_operation i f rows) ≡ unknown j rows
  unfolding find_operation update_operation
  unknown-update i j f [] k = refl
  unknown-update i j f (row ∷ rows) k = ground (arith, k row, unknown-update i j f rows k)

  pub unknown-append :
      (j : String) (xs ys : List (SyncOperation P R))
      → unknown j (xs ++ ys) ≡ (unknown j xs && unknown j ys)
  unfolding find_operation
  unknown-append j [] ys = refl
  unknown-append j (row ∷ rows) ys = ground (arith, unknown-append j rows ys)

pub unknown-claim :
    {P : Type 0} (R : Type 0) (op : SyncOperationInput P) (actor : Option Actor) (j : String)
    → unknown {R = R} j (claim op actor ∷ []) ≡ not (str_eq op.client_op_id j)
unfolding find_operation claim
unknown-claim R op actor j = ground arith

module _ {P R S : Type 0} (audit_port : Overwrite → Option Failure) where
  pub operations-audit_overwrites :
      (op : SyncOperationInput P) (t : Option Target) (cs : List Change) (s : Store P R S)
      → (audit_overwrites audit_port op t cs s).1.operations ≡ s.operations
  unfolding audit_overwrites
  operations-audit_overwrites op t [] s = refl
  operations-audit_overwrites op t (c ∷ cs) s =
      let e : Overwrite = record {
        client_op_id = op.client_op_id;
        device_id = op.device_id;
        target = t;
        change = c;
      } in
      ground (
        arith,
        operations-audit_overwrites op t cs (record s { overwrites = s.overwrites ++ e ∷ [] }),
      )

  pub records-audit_overwrites :
      (op : SyncOperationInput P) (t : Option Target) (cs : List Change) (s : Store P R S)
      → (audit_overwrites audit_port op t cs s).1.records ≡ s.records
  unfolding audit_overwrites
  records-audit_overwrites op t [] s = refl
  records-audit_overwrites op t (c ∷ cs) s =
      let e : Overwrite = record {
        client_op_id = op.client_op_id;
        device_id = op.device_id;
        target = t;
        change = c;
      } in
      ground
        (arith, records-audit_overwrites op t cs (record s { overwrites = s.overwrites ++ e ∷ [] }))

  unknown-finish :
      (op : SyncOperationInput P) (result : R) (a : Option Failure × Store P R S) (j : String)
      → unknown j (finish op result a).1.operations ≡ unknown j a.1.operations
  unfolding finish mark_rejected
  unknown-finish op result (none, s) j = refl
  unknown-finish op result (some failure, s) j = unknown-update _ j _ s.operations (λ row. refl)

  -- running a handler adds and removes no row of the ledger
  pub unknown-run_handler :
      (policy : ConflictPolicy) (op : SyncOperationInput P) (e : Ending R × S) (s : Store P R S)
      (j : String)
      → unknown j (run_handler audit_port policy op e s).1.operations ≡ unknown j s.operations
  unfolding run_handler settle_applied mark_rejected record_conflict
  unknown-run_handler policy op (returns result t cs, w) s j =
      let s' = settle_applied op result t (record s { records = w }) in
      let settled = unknown-update op.client_op_id j _ s.operations (λ row. refl) in
      let same = operations-audit_overwrites op t (changes_to_audit policy cs) s' in
      unknown-finish op result (audit_overwrites audit_port op t (changes_to_audit policy cs) s') j
      ∙ ap (unknown j) same
      ∙ settled
  unknown-run_handler policy op (detects d, w) s j = unknown-update _ j _ s.operations (λ row. refl)
  unknown-run_handler policy op (invalid x, w) s j = unknown-update _ j _ s.operations (λ row. refl)
  unknown-run_handler policy op (refuses c x, w) s j =
      unknown-update _ j _ s.operations (λ row. refl)
  unknown-run_handler policy op (crashes x, w) s j = unknown-update _ j _ s.operations (λ row. refl)

module _ {P R S : Type 0} (audit_port : Overwrite → Option Failure)
    (handlers : List (SyncHandler P R S)) (actor : Option Actor) where
  -- an operation with an id in the ledger changes nothing
  pub claim_and_run_known :
      (h : SyncHandler P R S) (op : SyncOperationInput P) (s : Store P R S)
      → unknown op.client_op_id s.operations ≡ false
      → (claim_and_run audit_port h op actor s).1 ≡ s
  unfolding claim_and_run
  claim_and_run_known h op s k = elim (Option-cases (find_operation op.client_op_id s.operations)) [
    | inl e ↦ cc (ap is_none e)
    | inr (row, e) ↦ rw (e, claim_and_run)
  ]

  pub unknown-claim_and_run :
      (h : SyncHandler P R S) (op : SyncOperationInput P) (s : Store P R S) (j : String)
      → unknown j (claim_and_run audit_port h op actor s).1.operations
        ≡ (unknown j s.operations && not (str_eq op.client_op_id j))
  unfolding claim_and_run
  unknown-claim_and_run h op s j =
      elim (Option-cases (find_operation op.client_op_id s.operations)) [
        | inl e ↦
            rw (e, claim_and_run)
              (unknown-run_handler audit_port h.conflict_policy op (h.apply op actor s.records)
                  (record s { operations = s.operations ++ claim op actor ∷ [] }) j
                ∙ unknown-append j s.operations (claim op actor ∷ [])
                ∙ ap (λ b. unknown j s.operations && b) (unknown-claim R op actor j))
        | inr (row, e) ↦ rw (e, claim_and_run) (ground (arith, eq_iff op.client_op_id j, e))
      ]
