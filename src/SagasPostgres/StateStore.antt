-- ===== src/SagasPostgres/StateStore.antt =====
-- packages/sagas-postgres/src/pg-saga-state-store.ts. `NOW()` is an argument, and so is the state
-- that is read back after `JSON.stringify` and a column of type jsonb.
pub mod Agree
pub mod Calls
pub mod Find
pub mod Refines
use eventfabric.Base.{
  of_tenant, ℕ, suc, ltb, ◌==◌, Str, codes, Bool, true, false, not, ◌&&◌, Option, none, some, List,
  [], ◌∷◌, ◌++◌, str_eq, keep, count, sort_by, if◌then◌else◌, Action, ok, err, thrown,
}
use eventfabric.Sagas.Saga.{SagaInstance, SagaInstanceStatus, active, completed, failed}

abbrev pub is_active : SagaInstanceStatus → Bool
is_active active = true
is_active _ = false

abbrev pub is_failed : SagaInstanceStatus → Bool
is_failed failed = true
is_failed _ = false

-- What `cleanupTerminal` may be asked for, and whether a status is among these.
pub data TerminalStatus : Type 0 where
  is_completed_status is_failed_status : TerminalStatus

abbrev pub has_status : List TerminalStatus → SagaInstanceStatus → Bool
has_status [] s = false
has_status (is_completed_status ∷ ss) completed = true
has_status (is_failed_status ∷ ss) failed = true
has_status (s ∷ ss) t = has_status ss t

-- `completed` and `failed` where the caller names none.
abbrev pub statuses_or : Option (List TerminalStatus) → List TerminalStatus
statuses_or none = is_completed_status ∷ is_failed_status ∷ []
statuses_or (some ss) = ss

module _ {S : Type 0} where
  -- The primary key.
  unfoldable pub has_key : Str → Str → Str → SagaInstance S → Bool
  has_key saga_name instance_id tenant_id row =
      str_eq row.tenant_id tenant_id
      && (str_eq row.saga_name saga_name && str_eq row.instance_id instance_id)

  unfoldable pub find : Str → Str → Str → List (SagaInstance S) → Option (SagaInstance S)
  find saga_name instance_id tenant_id [] = none
  find saga_name instance_id tenant_id (row ∷ rows) =
      if has_key saga_name instance_id tenant_id row
      then some row
      else find saga_name instance_id tenant_id rows

  unfoldable pub load : Str → Str → Str → Action (List (SagaInstance S)) (Option (SagaInstance S))
  unfolding find
  load saga_name instance_id tenant_id rows = (ok (find saga_name instance_id tenant_id rows), rows)

  -- `UPDATE ... SET ... WHERE ...`
  unfoldable pub update_where :
      (SagaInstance S → Bool)
      → (SagaInstance S → SagaInstance S)
      → List (SagaInstance S)
      → List (SagaInstance S)
  update_where test change [] = []
  update_where test change (row ∷ rows) =
      (if test row then change row else row) ∷ update_where test change rows

  abbrev pub is_old : List TerminalStatus → ℕ → Option Str → SagaInstance S → Bool
  is_old statuses older_than tenant row =
      has_status statuses row.status
      && (ltb row.updated_at older_than && of_tenant tenant row.tenant_id)

  unfoldable pub cleanup_terminal :
      ℕ
      → Option Str
      → Option (List TerminalStatus)
      → List (SagaInstance S)
      → List (SagaInstance S) × ℕ
  cleanup_terminal older_than tenant statuses rows = (
    keep (λ row. not (is_old (statuses_or statuses) older_than tenant row)) rows,
    count (is_old (statuses_or statuses) older_than tenant) rows,
  )

  abbrev pub is_failed_instance : Str → Str → Str → SagaInstance S → Bool
  is_failed_instance saga_name instance_id tenant_id row =
      has_key saga_name instance_id tenant_id row && is_failed row.status

  unfoldable pub reactivate :
      Str → Str → Str → ℕ → List (SagaInstance S) → List (SagaInstance S) × Bool
  unfolding update_where has_key
  reactivate saga_name instance_id tenant_id now rows = (
    update_where (is_failed_instance saga_name instance_id tenant_id)
        (λ row. record row {
          status = active;
          state_version = suc row.state_version;
          updated_at = now;
        })
        rows,
    ltb 0 (count (is_failed_instance saga_name instance_id tenant_id) rows),
  )

  unfoldable pub list_active : Str → Str → List (SagaInstance S) → List (SagaInstance S)
  list_active saga_name tenant_id rows =
      sort_by (λ row. row.created_at)
        (keep
          (λ row.
            str_eq row.tenant_id tenant_id
            && (str_eq row.saga_name saga_name && is_active row.status))
          rows)

module _ {S : Type 0} (through_jsonb : S → S) where
  abbrev pub stored : SagaInstance S → SagaInstance S
  stored i = record i { state = through_jsonb i.state }

  unfoldable pub insert_instance : SagaInstance S → Action (List (SagaInstance S)) (Unit {0})
  unfolding find
  insert_instance i rows = elim (find i.saga_name i.instance_id i.tenant_id rows) [
    | some row ↦ (err (thrown (codes "duplicate key value violates unique constraint")), rows)
    | none ↦ (ok tt, rows ++ stored i ∷ [])
  ]

  -- The columns of the UPDATE: those of the key and `created_at` stay.
  abbrev pub set_columns : SagaInstance S → SagaInstance S → SagaInstance S
  set_columns i row = record row {
    state = through_jsonb i.state;
    state_version = i.state_version;
    status = i.status;
    schema_version = i.schema_version;
    last_event_pos = i.last_event_pos;
    updated_at = i.updated_at;
  }

  abbrev pub expects : SagaInstance S → ℕ → SagaInstance S → Bool
  expects i expected_version row =
      has_key i.saga_name i.instance_id i.tenant_id row && (row.state_version == expected_version)

  unfoldable pub update : SagaInstance S → ℕ → Action (List (SagaInstance S)) Bool
  unfolding update_where has_key
  update i expected_version rows = (
    ok (ltb 0 (count (expects i expected_version) rows)),
    update_where (expects i expected_version) (set_columns i) rows,
  )
