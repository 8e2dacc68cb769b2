-- ===== src/SagasPostgres/TimerStore/Rescheduled.antt =====
-- A timer that its own delivery schedules again, in
-- packages/sagas-postgres/src/pg-saga-timer-store.ts and in
-- packages/sagas/src/in-memory-saga-timer-store.ts.
use eventfabric.Base.{ℕ, ◌<◌, ◌≡◌, refl, Str, ◌&&◌, List, [], ◌∷◌, count, arith, str_eq_refl}
use eventfabric.Sagas.Saga.{TimerMessage}
use eventfabric.Sagas.TimerStore.{TimerOwner, TimerStore}
use eventfabric.Sagas.TimerStore as Memory
use eventfabric.Sagas.TimerStore.Unique.{pending_count}
use eventfabric.SagasPostgres.TimerStore.{
  PgTimerRow, has_key, is_pending, schedule, update_where, mark_fired,
}

module _ {M : Type 0} (owner : TimerOwner) (id : Str) where
  abbrev pub pending_rows_of : List (PgTimerRow M) → ℕ
  pending_rows_of = count (λ row. has_key owner id row && is_pending row.status)

  mark_fired-pending : (rows : List (PgTimerRow M)) → pending_rows_of (mark_fired owner id rows) ≡ 0
  unfolding mark_fired update_where has_key
  mark_fired-pending [] = refl
  mark_fired-pending (row ∷ rows) = ground (arith, mark_fired-pending rows)

module _ {M : Type 0} (owner : TimerOwner) (id : Str) where
  scheduled-pending :
      (at : ℕ) (m : TimerMessage M) (rows : TimerStore M)
      → 0 < pending_count owner id (Memory.schedule owner id at m rows)
  unfolding Memory.schedule Memory.matches
  scheduled-pending at m [] = ground (
    arith,
    str_eq_refl owner.tenant_id,
    str_eq_refl owner.saga_name,
    str_eq_refl owner.instance_id,
    str_eq_refl id,
  )
  scheduled-pending at m (row ∷ rows) = ground (arith, scheduled-pending at m rows)

  fired-pending :
      (rows : TimerStore M)
      → pending_count owner id (Memory.mark_fired owner id rows) ≡ pending_count owner id rows
  unfolding Memory.mark_fired Memory.set_claimed Memory.matches
  fired-pending [] = refl
  fired-pending (row ∷ rows) = ground (arith, fired-pending rows)

  -- A saga that schedules a timer again while it is delivered: mark_fired of the delivery leaves a
  -- pending row of the id in memory, whatever was there; in the table it leaves none.
  pub mark_fired-schedule :
      (at now : ℕ) (m : TimerMessage M) (table : List (PgTimerRow M)) (rows : TimerStore M)
      → (pending_rows_of owner id (mark_fired owner id (schedule owner id at m now table)) ≡ 0)
        × (0
            < pending_count owner id
                (Memory.mark_fired owner id (Memory.schedule owner id at m rows)))
  mark_fired-schedule at now m table rows = (
    mark_fired-pending owner id (schedule owner id at m now table),
    omega (arith, fired-pending (Memory.schedule owner id at m rows), scheduled-pending at m rows),
  )
