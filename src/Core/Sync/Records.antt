-- ===== src/Core/Sync/Records.antt =====
-- What an operation leaves of a handler's writes.
use uni_acmis.Prelude.{
  ◌≡◌, ◌≢◌, refl, ◌∙◌, Option, none, List, [], ◌∷◌, ◌++◌, map, Option-cases, inl, inr,
}
use mathlib.Core.List.{append_assoc, append-nil}
use uni_acmis.Core.Sync.{
  applied, ConflictPolicy, Target, Change, SyncOperationInput, Ending, returns, detects, invalid,
  refuses, crashes, Failure, Overwrite, Store, Actor, SyncHandler,
}
use uni_acmis.Core.Sync.Engine.{
  find_operation, mark_rejected, record_conflict, settle_applied, finish, audit_overwrites,
  changes_to_audit, run_handler, screen, claim, claim_and_run, apply_operation,
}

abbrev pub entry_of : {P : Type 0} → SyncOperationInput P → Option Target → Change → Overwrite
entry_of op t c = record {
  client_op_id = op.client_op_id;
  device_id = op.device_id;
  target = t;
  change = c;
}

module _ {P R S : Type 0} (audit_port : Overwrite → Option Failure) where
  -- an audit that never raises goes through the whole list
  audit_all :
      (op : SyncOperationInput P) (t : Option Target) (cs : List Change) (s : Store P R S)
      → ((o : Overwrite) → audit_port o ≡ none)
      → audit_overwrites audit_port op t cs s
        ≡ (none, record s { overwrites = s.overwrites ++ map (entry_of op t) cs })
  unfolding audit_overwrites
  audit_all op t [] s h = rw append-nil
  audit_all op t (c ∷ cs) s h =
      rw (h (entry_of op t c), audit_overwrites)
        (audit_all op t cs (record s { overwrites = s.overwrites ++ entry_of op t c ∷ [] }) h
          ∙ rw append_assoc)

  records-run_handler :
      (policy : ConflictPolicy) (op : SyncOperationInput P) (e : Ending R × S) (s : Store P R S)
      → ((o : Overwrite) → audit_port o ≡ none)
      → (run_handler audit_port policy op e s).0.status ≢ applied
      → (run_handler audit_port policy op e s).1.records ≡ s.records
  unfolding run_handler mark_rejected record_conflict finish
  records-run_handler policy op (returns result t cs, w) s h n = absurd (
      n (
        rw
          (
            audit_all op t (changes_to_audit policy cs)
                (settle_applied op result t (record s { records = w })) h,
            finish,
          )
          refl))
  records-run_handler policy op (detects d, w) s h n = refl
  records-run_handler policy op (invalid x, w) s h n = refl
  records-run_handler policy op (refuses c x, w) s h n = refl
  records-run_handler policy op (crashes x, w) s h n = refl

  module _ (handlers : List (SyncHandler P R S)) (actor : Option Actor) where
    records-claim_and_run :
        (h : SyncHandler P R S) (op : SyncOperationInput P) (s : Store P R S)
        → ((o : Overwrite) → audit_port o ≡ none)
        → (claim_and_run audit_port h op actor s).0.status ≢ applied
        → (claim_and_run audit_port h op actor s).1.records ≡ s.records
    unfolding claim_and_run
    records-claim_and_run h op s a n =
        elim (Option-cases (find_operation op.client_op_id s.operations)) [
          | inl e ↦
              rw (e, claim_and_run)
                (records-run_handler h.conflict_policy op (h.apply op actor s.records)
                  (record s { operations = s.operations ++ claim op actor ∷ [] }) a
                  (rw (e, claim_and_run) at n))
          | inr (row, e) ↦ rw (e, claim_and_run)
        ]

    -- While the audit port accepts its entries, an operation whose outcome is not "applied" (a
    -- duplicate, a conflict, a rejection or a crash) leaves the records as they were, whatever its
    -- handler wrote before it raised.
    pub unapplied_keeps_records :
        (op : SyncOperationInput P) (s : Store P R S)
        → ((o : Overwrite) → audit_port o ≡ none)
        → (apply_operation audit_port handlers op actor s).0.status ≢ applied
        → (apply_operation audit_port handlers op actor s).1.records ≡ s.records
    unfolding apply_operation
    unapplied_keeps_records op s a n = elim (Option-cases (screen handlers op actor).0) [
      | inl e ↦ rw (e, apply_operation)
      | inr (h, e) ↦
          rw (e, apply_operation) (records-claim_and_run h op s a (rw (e, apply_operation) at n))
    ]
