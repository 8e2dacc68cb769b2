-- ===== src/SagasPostgres/TimerStore.antt =====
-- packages/sagas-postgres/src/pg-saga-timer-store.ts. `NOW()` is an argument, and so are the rows
-- that other transactions hold locks on. The table is in the order of its insertions.
pub mod Keyed
pub mod Rescheduled
use eventfabric.Base.{
  of_tenant, ℕ, suc, ◌+◌, ltb, leb, Str, Bool, true, false, not, ◌&&◌, ◌||◌, Option, none, some,
  List, [], ◌∷◌, map, str_eq, includes, keep, count, take, sort_by, if◌then◌else◌,
}
use eventfabric.Sagas.Saga.{TimerMessage}
use eventfabric.Sagas.TimerStore.{TimerOwner, TimerItem}

pub data PgTimerStatus : Type 0 where
  pending claimed fired cancelled failed : PgTimerStatus

abbrev pub is_pending : PgTimerStatus → Bool
is_pending pending = true
is_pending _ = false

abbrev pub is_claimed : PgTimerStatus → Bool
is_claimed claimed = true
is_claimed _ = false

-- What `cleanupTerminal` may be asked for, and whether a status is among these.
pub data TerminalStatus : Type 0 where
  is_fired is_cancelled : TerminalStatus

abbrev pub has_status : List TerminalStatus → PgTimerStatus → Bool
has_status [] s = false
has_status (is_fired ∷ ss) fired = true
has_status (is_cancelled ∷ ss) cancelled = true
has_status (s ∷ ss) t = has_status ss t

-- `fired` where the caller names none.
abbrev pub statuses_or : Option (List TerminalStatus) → List TerminalStatus
statuses_or none = is_fired ∷ []
statuses_or (some ss) = ss

pub record PgTimerRow (M : Type 0) : Type 0 where
  pub owner : TimerOwner
  pub id : Str
  pub fire_at : ℕ
  pub message : TimerMessage M
  pub status : PgTimerStatus
  pub scheduled_at : ℕ
  pub claimed_at : Option ℕ
  pub last_error : Option Str

abbrev pub same_owner : TimerOwner → TimerOwner → Bool
same_owner o q =
    str_eq o.tenant_id q.tenant_id
    && (str_eq o.saga_name q.saga_name && str_eq o.instance_id q.instance_id)

-- `claimed_at < ...`, which is not true of NULL.
abbrev pub claimed_before : ℕ → Option ℕ → Bool
claimed_before older_than none = false
claimed_before older_than (some at) = ltb at older_than

module _ {M : Type 0} where
  -- The primary key.
  unfoldable pub has_key : TimerOwner → Str → PgTimerRow M → Bool
  has_key owner id row = same_owner row.owner owner && str_eq row.id id

  abbrev pub new_row : TimerOwner → Str → ℕ → TimerMessage M → ℕ → PgTimerRow M
  new_row owner id fire_at message now = record {
    owner = owner;
    id = id;
    fire_at = fire_at;
    message = message;
    status = pending;
    scheduled_at = now;
    claimed_at = none;
    last_error = none;
  }

  -- `ON CONFLICT ... DO UPDATE`, whatever the status of the row.
  unfoldable pub schedule :
      TimerOwner → Str → ℕ → TimerMessage M → ℕ → List (PgTimerRow M) → List (PgTimerRow M)
  schedule owner id fire_at message now [] = new_row owner id fire_at message now ∷ []
  schedule owner id fire_at message now (row ∷ rows) =
      if has_key owner id row
      then record row {
        fire_at = fire_at;
        message = message;
        status = pending;
        scheduled_at = now;
        claimed_at = none;
      }
        ∷ rows
      else row ∷ schedule owner id fire_at message now rows

  -- `UPDATE ... SET ... WHERE ...`
  unfoldable pub update_where :
      (PgTimerRow M → Bool)
      → (PgTimerRow M → PgTimerRow M)
      → List (PgTimerRow M)
      → List (PgTimerRow M)
  update_where test change [] = []
  update_where test change (row ∷ rows) =
      (if test row then change row else row) ∷ update_where test change rows

  abbrev pub cancellable : TimerOwner → List Str → PgTimerRow M → Bool
  cancellable owner ids row =
      same_owner row.owner owner
      && (includes ids row.id && (is_pending row.status || is_claimed row.status))

  -- The rows and the number of rows that are changed.
  unfoldable pub cancel : TimerOwner → List Str → List (PgTimerRow M) → List (PgTimerRow M) × ℕ
  unfolding update_where
  cancel owner ids rows = (
    update_where (cancellable owner ids) (λ row. record row { status = cancelled }) rows,
    count (cancellable owner ids) rows,
  )

  abbrev pub is_due : ℕ → PgTimerRow M → Bool
  is_due now row = is_pending row.status && leb row.fire_at now

  -- The rows that the first part of the statement gives.
  unfoldable pub due_rows :
      (PgTimerRow M → Bool) → ℕ → ℕ → List (PgTimerRow M) → List (PgTimerRow M)
  due_rows is_locked now batch_size rows =
      take batch_size
        (sort_by (λ row. row.fire_at) (keep (λ row. is_due now row && not (is_locked row)) rows))

  abbrev pub is_chosen : List (PgTimerRow M) → PgTimerRow M → Bool
  is_chosen [] row = false
  is_chosen (c ∷ cs) row = if has_key c.owner c.id row then true else is_chosen cs row

  abbrev pub item_of : PgTimerRow M → TimerItem M
  item_of row = record {
    tenant_id = row.owner.tenant_id;
    saga_name = row.owner.saga_name;
    instance_id = row.owner.instance_id;
    id = row.id;
    fire_at = row.fire_at;
    message = row.message;
  }

  -- The rows come back in the order of the table, since the statement asks for none.
  unfoldable pub claim_due :
      (PgTimerRow M → Bool)
      → ℕ
      → ℕ
      → ℕ
      → List (PgTimerRow M)
      → List (PgTimerRow M) × List (TimerItem M)
  unfolding due_rows update_where has_key
  claim_due is_locked clock now batch_size rows =
      let chosen = due_rows is_locked now batch_size rows in
      (
        update_where (is_chosen chosen)
            (λ row. record row { status = claimed; claimed_at = some clock }) rows,
        map item_of (keep (is_chosen chosen) rows),
      )

  unfoldable pub mark_fired : TimerOwner → Str → List (PgTimerRow M) → List (PgTimerRow M)
  unfolding update_where
  mark_fired owner id = update_where (has_key owner id) (λ row. record row { status = fired })

  unfoldable pub mark_failed : TimerOwner → Str → Str → List (PgTimerRow M) → List (PgTimerRow M)
  unfolding update_where
  mark_failed owner id message =
      update_where (has_key owner id)
        (λ row. record row { status = failed; last_error = some message })

  abbrev to_pending : PgTimerRow M → PgTimerRow M
  to_pending row = record row { status = pending; claimed_at = none }

  unfoldable pub release : TimerOwner → Str → List (PgTimerRow M) → List (PgTimerRow M)
  unfolding update_where
  release owner id = update_where (λ row. has_key owner id row && is_claimed row.status) to_pending

  abbrev pub is_old : List TerminalStatus → ℕ → Option Str → PgTimerRow M → Bool
  is_old statuses older_than tenant row =
      has_status statuses row.status
      && (ltb row.scheduled_at older_than && of_tenant tenant row.owner.tenant_id)

  unfoldable pub cleanup_terminal :
      ℕ → Option Str → Option (List TerminalStatus) → List (PgTimerRow M) → List (PgTimerRow M) × ℕ
  cleanup_terminal older_than tenant statuses rows = (
    keep (λ row. not (is_old (statuses_or statuses) older_than tenant row)) rows,
    count (is_old (statuses_or statuses) older_than tenant) rows,
  )

  abbrev pub is_stale : ℕ → Option Str → PgTimerRow M → Bool
  is_stale older_than tenant row =
      is_claimed row.status
      && (claimed_before older_than row.claimed_at && of_tenant tenant row.owner.tenant_id)

  unfoldable pub reset_stale_claimed :
      ℕ → Option Str → List (PgTimerRow M) → List (PgTimerRow M) × ℕ
  unfolding update_where
  reset_stale_claimed older_than tenant rows = (
    update_where (is_stale older_than tenant) to_pending rows,
    count (is_stale older_than tenant) rows,
  )
