-- ===== src/MediatorPostgres/IdempotencyStore.antt =====
-- packages/mediator-postgres/src/pg-idempotency-store.ts. `NOW()` is an argument, and so is what
-- other transactions commit between two statements of a claim.
pub mod Claims
pub mod Done
pub mod Once
use eventfabric.Base.{
  of_tenant, ℕ, ltb, Str, codes, Bool, true, false, not, ◌&&◌, Option, none, some, or_else, List,
  [], ◌∷◌, str_eq, keep, count, if◌then◌else◌,
}
use eventfabric.Mediator.Idempotency.{ClaimResult, claimed, done, busy}

pub data SlotStatus : Type 0 where
  in_flight completed failed : SlotStatus

abbrev pub is_in_flight : SlotStatus → Bool
is_in_flight in_flight = true
is_in_flight _ = false

abbrev pub is_failed : SlotStatus → Bool
is_failed failed = true
is_failed _ = false

pub record SlotRow (R : Type 0) : Type 0 where
  pub tenant_id : Str
  pub idempotency_key : Str
  pub command_type : Str
  pub command_id : Str
  pub status : SlotStatus
  pub result : Option R
  pub error_message : Option Str
  pub created_at : ℕ
  pub completed_at : Option ℕ

module _ {R : Type 0} where
  -- The primary key.
  unfoldable pub has_slot : Str → Str → SlotRow R → Bool
  has_slot tenant_id key row = str_eq row.tenant_id tenant_id && str_eq row.idempotency_key key

  abbrev pub new_slot : Str → Str → Str → Str → ℕ → SlotRow R
  new_slot tenant_id key command_type command_id now = record {
    tenant_id = tenant_id;
    idempotency_key = key;
    command_type = command_type;
    command_id = command_id;
    status = in_flight;
    result = none;
    error_message = none;
    created_at = now;
    completed_at = none;
  }

  abbrev pub reclaimed : Str → Str → ℕ → SlotRow R → SlotRow R
  reclaimed command_type command_id now row = record row {
    command_type = command_type;
    command_id = command_id;
    status = in_flight;
    result = none;
    error_message = none;
    created_at = now;
    completed_at = none;
  }

  -- `INSERT ... ON CONFLICT ... DO UPDATE ... WHERE status = 'failed'`, and whether it gives a row.
  unfoldable pub insert_or_reclaim :
      Str → Str → Str → Str → ℕ → List (SlotRow R) → List (SlotRow R) × Bool
  insert_or_reclaim tenant_id key command_type command_id now [] =
      (new_slot tenant_id key command_type command_id now ∷ [], true)
  insert_or_reclaim tenant_id key command_type command_id now (row ∷ rows) =
      let rest = insert_or_reclaim tenant_id key command_type command_id now rows in
      if has_slot tenant_id key row
      then if is_failed row.status
        then (reclaimed command_type command_id now row ∷ rows, true)
        else (row ∷ rows, false)
      else (row ∷ rest.0, rest.1)

  -- `INSERT ... ON CONFLICT ... DO NOTHING`, and whether it gives a row.
  unfoldable pub insert_or_nothing :
      Str → Str → Str → Str → ℕ → List (SlotRow R) → List (SlotRow R) × Bool
  insert_or_nothing tenant_id key command_type command_id now [] =
      (new_slot tenant_id key command_type command_id now ∷ [], true)
  insert_or_nothing tenant_id key command_type command_id now (row ∷ rows) =
      let rest = insert_or_nothing tenant_id key command_type command_id now rows in
      if has_slot tenant_id key row then (row ∷ rows, false) else (row ∷ rest.0, rest.1)

  unfoldable pub find_slot : Str → Str → List (SlotRow R) → Option (SlotRow R)
  find_slot tenant_id key [] = none
  find_slot tenant_id key (row ∷ rows) =
      if has_slot tenant_id key row then some row else find_slot tenant_id key rows

  -- `UPDATE ... SET ... WHERE ...`
  unfoldable pub update_where :
      (SlotRow R → Bool) → (SlotRow R → SlotRow R) → List (SlotRow R) → List (SlotRow R)
  update_where test change [] = []
  update_where test change (row ∷ rows) =
      (if test row then change row else row) ∷ update_where test change rows

  unfoldable pub cleanup : ℕ → List (SlotRow R) → List (SlotRow R) × ℕ
  cleanup older_than rows = (
    keep (λ row. not (ltb row.created_at older_than)) rows,
    count (λ row. ltb row.created_at older_than) rows,
  )

  abbrev pub is_stale : ℕ → Option Str → SlotRow R → Bool
  is_stale older_than tenant row =
      is_in_flight row.status && (ltb row.created_at older_than && of_tenant tenant row.tenant_id)

  unfoldable pub reset_stale_in_flight :
      ℕ → Option Str → Option Str → ℕ → List (SlotRow R) → List (SlotRow R) × ℕ
  unfolding update_where
  reset_stale_in_flight older_than tenant reason now rows = (
    update_where (is_stale older_than tenant)
        (λ row. record row {
          status = failed;
          error_message =
              some (or_else row.error_message (or_else reason (codes "watchdog: stale in_flight")));
          completed_at = some now;
        })
        rows,
    count (is_stale older_than tenant) rows,
  )

  -- Nothing is done: the transaction of a handler that throws is rolled back.
  unfoldable pub release : Str → Option Str → List (SlotRow R) → List (SlotRow R)
  release key tenant_id rows = rows

-- What a SQL NULL and a JSON null are read as is `null`; `through_jsonb` is what a result is read
-- back as.
module _ {R : Type 0} (null : R) where
  -- The answer for a row that a claim found.
  abbrev pub answer : SlotRow R → ClaimResult R
  answer row = elim row.status [
    | completed ↦ done (or_else row.result null)
    | in_flight ↦ busy
    | failed ↦ busy
  ]

  -- `between` and `later` are what other transactions commit before the SELECT and before the
  -- second INSERT.
  unfoldable pub claim :
      (List (SlotRow R) → List (SlotRow R))
      → (List (SlotRow R) → List (SlotRow R))
      → Str
      → Option Str
      → Str
      → Str
      → Str
      → ℕ
      → List (SlotRow R)
      → ClaimResult R × List (SlotRow R)
  unfolding insert_or_reclaim insert_or_nothing find_slot
  claim between later tx_tenant tenant_id key command_type command_id now rows =
      let tenant = or_else tenant_id tx_tenant in
      let first = insert_or_reclaim tenant key command_type command_id now rows in
      let seen = between first.0 in
      let retry = insert_or_nothing tenant key command_type command_id now (later seen) in
      if first.1 then (claimed, first.0) else elim (find_slot tenant key seen) [
        | none ↦ (if retry.1 then claimed else busy, retry.0)
        | some row ↦ (answer row, seen)
      ]

module _ {R : Type 0} (through_jsonb : R → R) where
  unfoldable pub complete : Str → Str → Option Str → R → ℕ → List (SlotRow R) → List (SlotRow R)
  unfolding update_where has_slot
  complete tx_tenant key tenant_id result now =
      update_where (has_slot (or_else tenant_id tx_tenant) key) (λ row. record row {
        status = completed;
        result = some (through_jsonb result);
        completed_at = some now;
      })
