-- ===== src/MediatorPostgres/IdempotencyStore/Done.antt =====
-- Completed slots of packages/mediator-postgres/src/pg-idempotency-store.ts
-- behind its calls.
use eventfabric.Base.{
  ℕ, ◌≤◌, ◌≡◌, refl, Str, true, false, ◌&&◌, Option, none, some, or_else, List, [], ◌∷◌, str_eq,
  str_eq→eq, if◌then◌else◌, arith,
}
use eventfabric.Mediator.Idempotency.{done, busy}
use eventfabric.MediatorPostgres.IdempotencyStore.{
  SlotStatus, in_flight, completed, failed, SlotRow, has_slot, insert_or_reclaim, insert_or_nothing,
  update_where, cleanup, reset_stale_in_flight, release, answer, claim, complete, is_failed,
  is_in_flight,
}

module _ (R : Type 0) where
  -- A call of the store, with what other transactions commit while it claims.
  pub data SlotCall : Type 0 where
    claims :
        (List (SlotRow R) → List (SlotRow R))
        → (List (SlotRow R) → List (SlotRow R))
        → Option Str
        → Str
        → Str
        → Str
        → ℕ
        → SlotCall
    completes : Str → Option Str → R → ℕ → SlotCall
    releases : Str → Option Str → SlotCall
    cleans : ℕ → SlotCall
    resets : ℕ → Option Str → Option Str → ℕ → SlotCall

module _ {R : Type 0} (null : R) (through_jsonb : R → R) where
  -- The calls of transactions of one tenant.
  abbrev pub after_call : Str → SlotCall R → List (SlotRow R) → List (SlotRow R)
  after_call tx_tenant (SlotCall.claims between later tenant key type id now) rows =
      (claim null between later tx_tenant tenant key type id now rows).1
  after_call tx_tenant (SlotCall.completes key tenant r now) rows =
      complete through_jsonb tx_tenant key tenant r now rows
  after_call tx_tenant (SlotCall.releases key tenant) rows = release key tenant rows
  after_call tx_tenant (SlotCall.cleans older_than) rows = (cleanup older_than rows).0
  after_call tx_tenant (SlotCall.resets older_than tenant reason now) rows =
      (reset_stale_in_flight older_than tenant reason now rows).0

  abbrev pub after_calls : List (Str × SlotCall R) → List (SlotRow R) → List (SlotRow R)
  after_calls [] rows = rows
  after_calls ((tx_tenant, c) ∷ cs) rows = after_calls cs (after_call tx_tenant c rows)

  abbrev pub result_of : SlotStatus → Option R → ℕ → Option (R × ℕ)
  result_of completed r created = some (or_else r null, created)
  result_of _ r created = none

  -- The result and the age of a completed slot.
  unfoldable pub completed_slot : Str → Str → List (SlotRow R) → Option (R × ℕ)
  completed_slot t k [] = none
  completed_slot t k (row ∷ rows) =
      if has_slot t k row
      then result_of row.status row.result row.created_at
      else completed_slot t k rows

  pub failed_open :
      (s : SlotStatus) (x : Option R) (c : ℕ) → is_failed s ≡ true → result_of s x c ≡ none
  failed_open in_flight x c h = refl
  failed_open completed x c h = cc
  failed_open failed x c h = refl

  in_flight_open :
      (s : SlotStatus) (x : Option R) (c : ℕ) → is_in_flight s ≡ true → result_of s x c ≡ none
  in_flight_open in_flight x c h = refl
  in_flight_open completed x c h = cc
  in_flight_open failed x c h = refl

  result_of-created :
      (s : SlotStatus) (x : Option R) (c : ℕ) (r : R) (created : ℕ)
      → result_of s x c ≡ some (r, created)
      → c ≡ created
  result_of-created in_flight x c r created h = cc
  result_of-created completed x c r created h = cc
  result_of-created failed x c r created h = cc

  pub answer-done :
      (row : SlotRow R) (r : R) (created : ℕ)
      → result_of row.status row.result row.created_at ≡ some (r, created)
      → answer null row ≡ done r
  answer-done row r created h = go row.status h
    where
      go :
          (s : SlotStatus)
          → result_of s row.result row.created_at ≡ some (r, created)
          → elim s [ completed ↦ done (or_else row.result null) | in_flight ↦ busy | failed ↦ busy ]
            ≡ done r
      go in_flight h = cc
      go completed h = cc
      go failed h = cc

  module _ (t k : Str) (r : R) (created : ℕ) where
    -- A slot is completed with a result.
    abbrev pub IsDone : List (SlotRow R) → Type 0
    IsDone rows = completed_slot t k rows ≡ some (r, created)

    -- What other transactions commit leaves the slot completed.
    abbrev pub Keeps : (List (SlotRow R) → List (SlotRow R)) → Type 0
    Keeps f = (rows : List (SlotRow R)) → IsDone rows → IsDone (f rows)

    -- The calls that are allowed: nothing completes the slot again, and no row as old is cleaned.
    abbrev pub Spares : Str → SlotCall R → Type 0
    Spares tx_tenant (SlotCall.claims between later tenant key type id now) =
        Keeps between × Keeps later
    Spares tx_tenant (SlotCall.completes key tenant result now) =
        (str_eq t (or_else tenant tx_tenant) && str_eq k key) ≡ false
    Spares tx_tenant (SlotCall.releases key tenant) = Unit {0}
    Spares tx_tenant (SlotCall.cleans older_than) = older_than ≤ created
    Spares tx_tenant (SlotCall.resets older_than tenant reason now) = Unit {0}

    abbrev pub SparesAll : List (Str × SlotCall R) → Type 0
    SparesAll [] = Unit {0}
    SparesAll ((tx_tenant, c) ∷ cs) = Spares tx_tenant c × SparesAll cs

    pub insert_or_reclaim-IsDone :
        (t' k' type id : Str) (now : ℕ) (rows : List (SlotRow R))
        → IsDone rows
        → IsDone (insert_or_reclaim t' k' type id now rows).0
    unfolding completed_slot insert_or_reclaim has_slot
    insert_or_reclaim-IsDone t' k' type id now [] h = cc
    insert_or_reclaim-IsDone t' k' type id now (row ∷ rows) h = ground (
      arith,
      failed_open row.status row.result row.created_at,
      str_eq→eq row.tenant_id t',
      str_eq→eq row.idempotency_key k',
      insert_or_reclaim-IsDone t' k' type id now rows,
    )

    pub insert_or_nothing-IsDone :
        (t' k' type id : Str) (now : ℕ) (rows : List (SlotRow R))
        → IsDone rows
        → IsDone (insert_or_nothing t' k' type id now rows).0
    unfolding completed_slot insert_or_nothing has_slot
    insert_or_nothing-IsDone t' k' type id now [] h = cc
    insert_or_nothing-IsDone t' k' type id now (row ∷ rows) h =
        ground (arith, insert_or_nothing-IsDone t' k' type id now rows)

    pub complete-IsDone :
        (tx_tenant key : Str) (tenant : Option Str) (result : R) (now : ℕ) (rows : List (SlotRow R))
        → (str_eq t (or_else tenant tx_tenant) && str_eq k key) ≡ false
        → IsDone rows
        → IsDone (complete through_jsonb tx_tenant key tenant result now rows)
    unfolding completed_slot complete update_where has_slot
    complete-IsDone tx_tenant key tenant result now [] other h = cc
    complete-IsDone tx_tenant key tenant result now (row ∷ rows) other h = ground (
      arith,
      str_eq→eq row.tenant_id t,
      str_eq→eq row.idempotency_key k,
      complete-IsDone tx_tenant key tenant result now rows other,
    )

    pub cleanup-IsDone :
        (older_than : ℕ) (rows : List (SlotRow R))
        → older_than ≤ created
        → IsDone rows
        → IsDone (cleanup older_than rows).0
    unfolding completed_slot cleanup
    cleanup-IsDone older_than [] le h = cc
    cleanup-IsDone older_than (row ∷ rows) le h = ground (
      arith,
      result_of-created row.status row.result row.created_at r created,
      cleanup-IsDone older_than rows le,
    )

    pub reset-IsDone :
        (older_than : ℕ) (tenant reason : Option Str) (now : ℕ) (rows : List (SlotRow R))
        → IsDone rows
        → IsDone (reset_stale_in_flight older_than tenant reason now rows).0
    unfolding completed_slot reset_stale_in_flight update_where has_slot
    reset-IsDone older_than tenant reason now [] h = cc
    reset-IsDone older_than tenant reason now (row ∷ rows) h = ground (
      arith,
      in_flight_open row.status row.result row.created_at,
      reset-IsDone older_than tenant reason now rows,
    )
