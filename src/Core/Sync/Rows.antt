-- ===== src/Core/Sync/Rows.antt =====
-- The row of an operation in the ledger, when it is applied and after others.
use text.Mathlib.Text.{◌==◌ as str_eq}
use text.Mathlib.TextEquality.{eq_iff}
use text.Mathlib.TextPositions.{eq_refl}
use uni_acmis.Prelude.{
  String, ◌≡◌, refl, ap, ◌∙◌, Option, none, some, false, List, [], ◌∷◌, ◌++◌, arith, Option-cases,
  inl, inr,
}
use uni_acmis.Core.Sync.{
  applied, ConflictPolicy, SyncOperationInput, Ending, returns, detects, invalid, refuses, crashes,
  SyncOperation, Failure, Overwrite, Store, Actor, SyncHandler,
}
use uni_acmis.Core.Sync.Engine.{
  find_operation, update_operation, claim, mark_rejected, record_conflict, settle_applied,
  audit_overwrites, changes_to_audit, run_handler, finish, screen, claim_and_run, apply_operation,
  apply_batch,
}
use uni_acmis.Core.Sync.Ledger.{KeepsId, operations-audit_overwrites}

module _ {P R : Type 0} where
  find-update_other :
      (i j : String) (f : SyncOperation P R → SyncOperation P R) (rows : List (SyncOperation P R))
      → KeepsId f
      → str_eq i j ≡ false
      → find_operation j (update_operation i f rows) ≡ find_operation j rows
  unfolding find_operation update_operation
  find-update_other i j f [] k d = refl
  find-update_other i j f (row ∷ rows) k d = ground (
    arith,
    k row,
    find-update_other i j f rows k d,
    eq_iff row.client_op_id i,
    eq_iff row.client_op_id j,
    eq_iff i j,
    d,
  )

  find-append :
      (j : String) (row : SyncOperation P R) (xs ys : List (SyncOperation P R))
      → find_operation j xs ≡ some row
      → find_operation j (xs ++ ys) ≡ some row
  unfolding find_operation
  find-append j row [] ys h = absurd (ground (arith, h))
  find-append j row (x ∷ xs) ys h = ground (arith, h, find-append j row xs ys)

  find-update_claim :
      (op : SyncOperationInput P) (actor : Option Actor) (f : SyncOperation P R → SyncOperation P R)
      (rows : List (SyncOperation P R))
      → KeepsId f
      → find_operation op.client_op_id rows ≡ none
      → find_operation op.client_op_id
          (update_operation op.client_op_id f (rows ++ claim op actor ∷ []))
        ≡ some (f (claim op actor))
  unfolding find_operation update_operation claim
  find-update_claim op actor f [] k h = ground (arith, eq_refl op.client_op_id, k (claim op actor))
  find-update_claim op actor f (row ∷ rows) k h =
      ground (arith, h, k row, find-update_claim op actor f rows k)

module _ {P R S : Type 0} (audit_port : Overwrite → Option Failure) where
  find-finish :
      (op : SyncOperationInput P) (result : R) (a : Option Failure × Store P R S) (j : String)
      → str_eq op.client_op_id j ≡ false
      → find_operation j (finish op result a).1.operations ≡ find_operation j a.1.operations
  unfolding finish mark_rejected
  find-finish op result (none, s) j d = refl
  find-finish op result (some failure, s) j d =
      find-update_other op.client_op_id j _ s.operations (λ row. refl) d

  -- running a handler leaves the rows of other operations
  find-run_handler :
      (policy : ConflictPolicy) (op : SyncOperationInput P) (e : Ending R × S) (s : Store P R S)
      (j : String)
      → str_eq op.client_op_id j ≡ false
      → find_operation j (run_handler audit_port policy op e s).1.operations
        ≡ find_operation j s.operations
  unfolding run_handler settle_applied mark_rejected record_conflict
  find-run_handler policy op (returns result t cs, w) s j d =
      let s' = settle_applied op result t (record s { records = w }) in
      let settled = find-update_other op.client_op_id j _ s.operations (λ row. refl) d in
      let same = operations-audit_overwrites audit_port op t (changes_to_audit policy cs) s' in
      find-finish op result (audit_overwrites audit_port op t (changes_to_audit policy cs) s') j d
      ∙ ap (find_operation j) same
      ∙ settled
  find-run_handler policy op (detects x, w) s j d =
      find-update_other _ j _ s.operations (λ row. refl) d
  find-run_handler policy op (invalid x, w) s j d =
      find-update_other _ j _ s.operations (λ row. refl) d
  find-run_handler policy op (refuses c x, w) s j d =
      find-update_other _ j _ s.operations (λ row. refl) d
  find-run_handler policy op (crashes x, w) s j d =
      find-update_other _ j _ s.operations (λ row. refl) d

  module _ (handlers : List (SyncHandler P R S)) (actor : Option Actor) where
    find-claim_and_run :
        (h : SyncHandler P R S) (op : SyncOperationInput P) (s : Store P R S) (j : String)
        (row : SyncOperation P R)
        → find_operation j s.operations ≡ some row
        → find_operation j (claim_and_run audit_port h op actor s).1.operations ≡ some row
    unfolding claim_and_run
    find-claim_and_run h op s j row f =
        elim (Option-cases (find_operation op.client_op_id s.operations)) [
          | inl e ↦
              rw (e, claim_and_run)
                (find-run_handler h.conflict_policy op (h.apply op actor s.records)
                    (record s { operations = s.operations ++ claim op actor ∷ [] }) j
                    (ground (arith, eq_iff op.client_op_id j, e, f))
                  ∙ find-append j row s.operations (claim op actor ∷ []) f)
          | inr (other, e) ↦ rw (e, claim_and_run) f
        ]

    -- the row of an operation stays as it is, whatever is applied later
    pub find-apply_batch :
        (ops : List (SyncOperationInput P)) (s : Store P R S) (j : String) (row : SyncOperation P R)
        → find_operation j s.operations ≡ some row
        → find_operation j (apply_batch audit_port handlers actor ops s).1.operations ≡ some row
    unfolding apply_batch apply_operation
    find-apply_batch [] s j row f = f
    find-apply_batch (op ∷ ops) s j row f =
        find-apply_batch ops _ j row (elim (Option-cases (screen handlers op actor).0) [
          | inl e ↦ rw (e, apply_operation) f
          | inr (h, e) ↦ rw (e, apply_operation) (find-claim_and_run h op s j row f)
        ])

  -- what the ledger shows of an operation after it
  abbrev pub Shows : SyncOperationInput P → Option R → Store P R S → Type 0
  Shows op result s =
      (row : SyncOperation P R) × (find_operation op.client_op_id s.operations ≡ some row)
      × (row.result ≡ result)
      × (row.entity ≡ op.entity)

  Shows-finish :
      (op : SyncOperationInput P) (result : R) (a : Option Failure × Store P R S)
      → Shows op (some result) a.1
      → (finish op result a).0.status ≡ applied
      → Shows op (finish op result a).0.result (finish op result a).1
  unfolding finish
  Shows-finish op result (none, s) k h = k
  Shows-finish op result (some failure, s) k h = absurd (ground (arith, h))

  pub Shows-run_handler :
      (policy : ConflictPolicy) (op : SyncOperationInput P) (actor : Option Actor)
      (e : Ending R × S) (s : Store P R S)
      → find_operation op.client_op_id s.operations ≡ none
      → let after =
          run_handler audit_port policy op e
            (record s { operations = s.operations ++ claim op actor ∷ [] }) in
        after.0.status ≡ applied → Shows op after.0.result after.1
  unfolding run_handler settle_applied
  Shows-run_handler policy op actor (returns result t cs, w) s new h =
      let t' =
        settle_applied op result t
          (record s { operations = s.operations ++ claim op actor ∷ []; records = w }) in
      let audited = audit_overwrites audit_port op t (changes_to_audit policy cs) t' in
      let row = record (claim {R = R} op actor) {
        status = applied;
        result = some result;
        target = t;
      } in
      Shows-finish op result audited
        (
          row,
          ap (find_operation op.client_op_id)
                (operations-audit_overwrites audit_port op t (changes_to_audit policy cs) t')
              ∙ find-update_claim op actor _ s.operations (λ r. refl) new,
          refl,
          unfold claim in refl,
        )
        h
  Shows-run_handler policy op actor (detects x, w) s new h = absurd (ground (arith, h))
  Shows-run_handler policy op actor (invalid x, w) s new h = absurd (ground (arith, h))
  Shows-run_handler policy op actor (refuses c x, w) s new h = absurd (ground (arith, h))
  Shows-run_handler policy op actor (crashes x, w) s new h = absurd (ground (arith, h))
