-- ===== src/SagasPostgres/TimerStore/Keyed.antt =====
-- One row for each key in the table of packages/sagas-postgres/src/pg-saga-timer-store.ts.
use eventfabric.Base.{
  ℕ, ◌≤◌, count-keep-le, ◌≡◌, refl, Str, Bool, Option, List, [], ◌∷◌, count, arith, Bool-cases,
  none, false, inl, inr, str_eq→eq, str_eq_refl, true,
}
use eventfabric.Sagas.Saga.{TimerMessage}
use eventfabric.Sagas.TimerStore.{TimerOwner}
use eventfabric.SagasPostgres.TimerStore.{
  PgTimerRow, pending, new_row, TerminalStatus, has_key, schedule, update_where, cancel, claim_due,
  mark_fired, mark_failed, release, cleanup_terminal, reset_stale_claimed,
}

module _ (M : Type 0) where
  -- One call that changes the table.
  pub data TimerCall : Type 0 where
    scheduled : TimerOwner → Str → ℕ → TimerMessage M → ℕ → TimerCall
    cancelled : TimerOwner → List Str → TimerCall
    claimed : (PgTimerRow M → Bool) → ℕ → ℕ → ℕ → TimerCall
    fired : TimerOwner → Str → TimerCall
    failed : TimerOwner → Str → Str → TimerCall
    released : TimerOwner → Str → TimerCall
    cleaned : ℕ → Option Str → Option (List TerminalStatus) → TimerCall
    reset : ℕ → Option Str → TimerCall

module _ {M : Type 0} where
  abbrev pub after_call : TimerCall M → List (PgTimerRow M) → List (PgTimerRow M)
  after_call (TimerCall.scheduled owner id fire_at message now) rows =
      schedule owner id fire_at message now rows
  after_call (TimerCall.cancelled owner ids) rows = (cancel owner ids rows).0
  after_call (TimerCall.claimed is_locked clock now n) rows =
      (claim_due is_locked clock now n rows).0
  after_call (TimerCall.fired owner id) rows = mark_fired owner id rows
  after_call (TimerCall.failed owner id message) rows = mark_failed owner id message rows
  after_call (TimerCall.released owner id) rows = release owner id rows
  after_call (TimerCall.cleaned older_than tenant statuses) rows =
      (cleanup_terminal older_than tenant statuses rows).0
  after_call (TimerCall.reset older_than tenant) rows =
      (reset_stale_claimed older_than tenant rows).0

  abbrev pub after_calls : List (TimerCall M) → List (PgTimerRow M) → List (PgTimerRow M)
  after_calls [] rows = rows
  after_calls (c ∷ cs) rows = after_calls cs (after_call c rows)

  -- How many rows have a key; no key has two.
  abbrev pub rows_of : TimerOwner → Str → List (PgTimerRow M) → ℕ
  rows_of owner id = count (has_key owner id)

  abbrev pub IsKeyed : List (PgTimerRow M) → Type 0
  IsKeyed rows = (owner : TimerOwner) (id : Str) → rows_of owner id rows ≤ 1

  has_key→eq :
      (owner o : TimerOwner) (id i : Str) (at now : ℕ) (m : TimerMessage M)
      → has_key o i (new_row owner id at m now) ≡ true
      → (owner ≡ o) × (id ≡ i)
  unfolding has_key
  has_key→eq owner o id i at now m h = ground (
    arith,
    str_eq→eq owner.tenant_id o.tenant_id,
    str_eq→eq owner.saga_name o.saga_name,
    str_eq→eq owner.instance_id o.instance_id,
    str_eq→eq id i,
  )

  has_key-new_row :
      (owner o : TimerOwner) (id i : Str) (at now : ℕ) (m : TimerMessage M) (row : PgTimerRow M)
      → has_key owner id row ≡ true
      → has_key o i row ≡ has_key o i (new_row owner id at m now)
  unfolding has_key
  has_key-new_row owner o id i at now m row h = ground (
    arith,
    str_eq→eq row.owner.tenant_id owner.tenant_id,
    str_eq→eq row.owner.saga_name owner.saga_name,
    str_eq→eq row.owner.instance_id owner.instance_id,
    str_eq→eq row.id id,
  )

  has_key_self :
      (owner : TimerOwner) (id : Str) (at now : ℕ) (m : TimerMessage M)
      → has_key owner id (new_row owner id at m now) ≡ true
  unfolding has_key
  has_key_self owner id at now m = ground (
    arith,
    str_eq_refl owner.tenant_id,
    str_eq_refl owner.saga_name,
    str_eq_refl owner.instance_id,
    str_eq_refl id,
  )

  has_key-scheduled :
      (o : TimerOwner) (i : Str) (at now : ℕ) (m : TimerMessage M) (row : PgTimerRow M)
      → has_key o i (record row {
        fire_at = at;
        message = m;
        status = pending;
        scheduled_at = now;
        claimed_at = none;
      })
        ≡ has_key o i row
  unfolding has_key
  has_key-scheduled o i at now m row = refl

  schedule-other :
      (owner o : TimerOwner) (id i : Str) (at now : ℕ) (m : TimerMessage M)
      (rows : List (PgTimerRow M))
      → has_key o i (new_row owner id at m now) ≡ false
      → rows_of o i (schedule owner id at m now rows) ≡ rows_of o i rows
  unfolding schedule
  schedule-other owner o id i at now m [] h = ground (arith, h)
  schedule-other owner o id i at now m (row ∷ rows) h = ground (
    arith,
    h,
    has_key-new_row owner o id i at now m row,
    has_key-scheduled o i at now m row,
    schedule-other owner o id i at now m rows h,
  )

  schedule-own :
      (owner : TimerOwner) (id : Str) (at now : ℕ) (m : TimerMessage M) (rows : List (PgTimerRow M))
      → rows_of owner id rows ≤ 1
      → rows_of owner id (schedule owner id at m now rows) ≤ 1
  unfolding schedule
  schedule-own owner id at now m [] h = ground (arith, has_key_self owner id at now m)
  schedule-own owner id at now m (row ∷ rows) h =
      ground (arith, has_key-scheduled owner id at now m row, schedule-own owner id at now m rows)

  schedule-IsKeyed :
      (owner : TimerOwner) (id : Str) (at now : ℕ) (m : TimerMessage M) (rows : List (PgTimerRow M))
      → IsKeyed rows
      → IsKeyed (schedule owner id at m now rows)
  schedule-IsKeyed owner id at now m rows h o i =
      elim (Bool-cases (has_key o i (new_row owner id at m now))) [
        | inl t ↦
            let (same, same_id) = has_key→eq owner o id i at now m t in
            rw (← same, ← same_id) (schedule-own owner id at now m rows (h owner id))
        | inr f ↦ rw (schedule-other owner o id i at now m rows f) (h o i)
      ]

  update_where-rows_of :
      (test : PgTimerRow M → Bool) (change : PgTimerRow M → PgTimerRow M) (o : TimerOwner) (i : Str)
      (rows : List (PgTimerRow M))
      → ((row : PgTimerRow M) → has_key o i (change row) ≡ has_key o i row)
      → rows_of o i (update_where test change rows) ≡ rows_of o i rows
  unfolding update_where
  update_where-rows_of test change o i [] same = refl
  update_where-rows_of test change o i (row ∷ rows) same =
      ground (arith, same row, update_where-rows_of test change o i rows same)

  update_where-IsKeyed :
      (test : PgTimerRow M → Bool) (change : PgTimerRow M → PgTimerRow M)
      (rows : List (PgTimerRow M))
      → IsKeyed rows
      → ((o : TimerOwner) (i : Str) (row : PgTimerRow M)
          → has_key o i (change row) ≡ has_key o i row)
      → IsKeyed (update_where test change rows)
  update_where-IsKeyed test change rows h same o i =
      rw (update_where-rows_of test change o i rows (same o i)) (h o i)

  -- Every call keeps the key unique.
  after_call-IsKeyed :
      (call : TimerCall M) (rows : List (PgTimerRow M))
      → IsKeyed rows
      → IsKeyed (after_call call rows)
  unfolding cancel claim_due mark_fired mark_failed release cleanup_terminal reset_stale_claimed
      has_key
  after_call-IsKeyed (TimerCall.scheduled owner id at m now) rows h =
      schedule-IsKeyed owner id at now m rows h
  after_call-IsKeyed (TimerCall.cancelled owner ids) rows h =
      update_where-IsKeyed _ _ rows h (λ o i row. refl)
  after_call-IsKeyed (TimerCall.claimed is_locked clock now n) rows h =
      update_where-IsKeyed _ _ rows h (λ o i row. refl)
  after_call-IsKeyed (TimerCall.fired owner id) rows h =
      update_where-IsKeyed _ _ rows h (λ o i row. refl)
  after_call-IsKeyed (TimerCall.failed owner id message) rows h =
      update_where-IsKeyed _ _ rows h (λ o i row. refl)
  after_call-IsKeyed (TimerCall.released owner id) rows h =
      update_where-IsKeyed _ _ rows h (λ o i row. refl)
  after_call-IsKeyed (TimerCall.cleaned older_than tenant statuses) rows h =
      λ o i. omega (arith, h o i, count-keep-le (has_key o i) _ rows)
  after_call-IsKeyed (TimerCall.reset older_than tenant) rows h =
      update_where-IsKeyed _ _ rows h (λ o i row. refl)

  -- Any calls on an empty table leave no key with two rows.
  pub after_calls-IsKeyed :
      (calls : List (TimerCall M)) (rows : List (PgTimerRow M))
      → IsKeyed rows
      → IsKeyed (after_calls calls rows)
  after_calls-IsKeyed [] rows h = h
  after_calls-IsKeyed (c ∷ cs) rows h =
      after_calls-IsKeyed cs (after_call c rows) (after_call-IsKeyed c rows h)
