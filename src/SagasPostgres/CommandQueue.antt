-- ===== src/SagasPostgres/CommandQueue.antt =====
-- packages/sagas-postgres/src/pg-saga-command-queue.ts. `NOW()` is an argument, and so are the rows
-- that other transactions hold locks on. The table is in the order of its insertions.
pub mod Fair
use eventfabric.Base.{
  of_tenant, ℕ, suc, ltb, leb, ◌==◌, Str, codes, Bool, true, false, not, ◌&&◌, Option, none, some,
  or_else, List, [], ◌∷◌, ◌++◌, map, str_eq, keep, count, take, order_by, distinct_on,
  if◌then◌else◌,
}
use eventfabric.Mediator.Command.{Command}
use eventfabric.SagasPostgres.TimerStore.{claimed_before}

pub data ClaimStrategy : Type 0 where
  fifo fair_by_tenant : ClaimStrategy

pub data PgRowStatus : Type 0 where
  pending claimed failed : PgRowStatus

abbrev pub is_pending : PgRowStatus → Bool
is_pending pending = true
is_pending _ = false

abbrev pub is_claimed : PgRowStatus → Bool
is_claimed claimed = true
is_claimed _ = false

abbrev pub is_failed : PgRowStatus → Bool
is_failed failed = true
is_failed _ = false

module _ (C : Type 0) where
  pub record PgQueueRow : Type 0 where
    pub id : ℕ
    pub tenant_id : Str
    pub saga_name : Str
    pub instance_id : Str
    pub command : Command C
    pub attempts : ℕ
    pub status : PgRowStatus
    pub enqueued_at : ℕ
    pub claimed_at : Option ℕ
    pub next_attempt_at : Option ℕ
    pub last_error : Option Str
    pub causation_event_id : Option Str

  -- The table with its sequence.
  pub record PgQueue : Type 0 where
    pub rows : List PgQueueRow
    pub next_id : ℕ

  -- `SagaCommandQueueItem`, with the id as a number.
  pub record PgQueueItem : Type 0 where
    pub id : ℕ
    pub tenant_id : Str
    pub saga_name : Str
    pub instance_id : Str
    pub command : Command C
    pub attempts : ℕ
    pub causation_event_id : Option Str

-- `next_attempt_at IS NULL OR next_attempt_at <= NOW()`
abbrev pub is_ripe : ℕ → Option ℕ → Bool
is_ripe now none = true
is_ripe now (some at) = leb at now

module _ {C : Type 0} where
  unfoldable pub enqueue : Str → Str → Str → Command C → Option Str → ℕ → PgQueue C → PgQueue C
  enqueue tenant_id saga_name instance_id command causation_event_id now q = record {
    rows =
        q.rows
        ++ record {
          id = q.next_id;
          tenant_id = tenant_id;
          saga_name = saga_name;
          instance_id = instance_id;
          command = command;
          attempts = 0;
          status = pending;
          enqueued_at = now;
          claimed_at = none;
          next_attempt_at = none;
          last_error = none;
          causation_event_id = causation_event_id;
        }
          ∷ [];
    next_id = suc q.next_id;
  }

  abbrev pub eligible : ℕ → PgQueueRow C → Bool
  eligible now row = is_pending row.status && is_ripe now row.next_attempt_at

  abbrev pub by_id : PgQueueRow C → PgQueueRow C → Bool
  by_id r q = leb r.id q.id

  abbrev pub same_tenant : PgQueueRow C → PgQueueRow C → Bool
  same_tenant r q = str_eq r.tenant_id q.tenant_id

  -- `SELECT DISTINCT ON (tenant_id) ... ORDER BY tenant_id, id`: the oldest eligible row of each
  -- tenant; only their ids are used.
  unfoldable pub candidates : ℕ → List (PgQueueRow C) → List (PgQueueRow C)
  candidates now rows = distinct_on same_tenant (order_by by_id (keep (eligible now) rows))

  abbrev pub has_id : List (PgQueueRow C) → ℕ → Bool
  has_id [] n = false
  has_id (r ∷ rs) n = if r.id == n then true else has_id rs n

  -- The rows of the part `claimed` of the statement.
  unfoldable pub claimed_rows :
      ClaimStrategy → (PgQueueRow C → Bool) → ℕ → ℕ → List (PgQueueRow C) → List (PgQueueRow C)
  unfolding candidates
  claimed_rows fifo is_locked now batch_size rows =
      take batch_size
        (keep (λ row. not (is_locked row)) (order_by by_id (keep (eligible now) rows)))
  claimed_rows fair_by_tenant is_locked now batch_size rows = take batch_size (
      keep (λ row. not (is_locked row))
        (order_by by_id (keep (λ row. has_id (candidates now rows) row.id) rows)))

  -- `UPDATE ... WHERE ...`
  unfoldable pub update_where :
      (PgQueueRow C → Bool)
      → (PgQueueRow C → PgQueueRow C)
      → List (PgQueueRow C)
      → List (PgQueueRow C)
  update_where test change [] = []
  update_where test change (row ∷ rows) =
      (if test row then change row else row) ∷ update_where test change rows

  abbrev pub claim_row : ℕ → PgQueueRow C → PgQueueRow C
  claim_row now row = record row {
    status = claimed;
    attempts = suc row.attempts;
    claimed_at = some now;
  }

  abbrev pub item_of : PgQueueRow C → PgQueueItem C
  item_of row = record {
    id = row.id;
    tenant_id = row.tenant_id;
    saga_name = row.saga_name;
    instance_id = row.instance_id;
    command = row.command;
    attempts = row.attempts;
    causation_event_id = row.causation_event_id;
  }

  -- The rows come back in the order of the table, since the statement asks for none.
  unfoldable pub claim_batch :
      ClaimStrategy → (PgQueueRow C → Bool) → ℕ → ℕ → PgQueue C → PgQueue C × List (PgQueueItem C)
  unfolding claimed_rows update_where
  claim_batch strategy is_locked now batch_size q =
      let chosen = claimed_rows strategy is_locked now batch_size q.rows in
      let is_chosen = λ (row : PgQueueRow C). has_id chosen row.id in
      (
        record q { rows = update_where is_chosen (claim_row now) q.rows },
        map (λ row. item_of (claim_row now row)) (keep is_chosen q.rows),
      )

  unfoldable pub ack : ℕ → PgQueue C → PgQueue C
  ack id q = record q { rows = keep (λ row. not (row.id == id)) q.rows }

  unfoldable pub release_with_error : ℕ → Str → Option ℕ → PgQueue C → PgQueue C
  unfolding update_where
  release_with_error id message delay_until q = record q {
    rows =
        update_where (λ row. row.id == id)
          (λ row. record row {
            status = pending;
            last_error = some message;
            claimed_at = none;
            next_attempt_at = delay_until;
          })
          q.rows;
  }

  unfoldable pub mark_failed : ℕ → Str → PgQueue C → PgQueue C
  unfolding update_where
  mark_failed id message q = record q {
    rows =
        update_where (λ row. row.id == id)
          (λ row. record row { status = failed; last_error = some message }) q.rows;
  }

  abbrev pub requeueable : ℕ → PgQueueRow C → Bool
  requeueable id row = (row.id == id) && is_failed row.status

  unfoldable pub requeue : ℕ → PgQueue C → PgQueue C × Bool
  unfolding update_where
  requeue id q = (
    record q {
      rows =
          update_where (requeueable id)
            (λ row. record row {
              status = pending;
              attempts = 0;
              claimed_at = none;
              next_attempt_at = none;
              last_error = none;
            })
            q.rows;
    },
    ltb 0 (count (requeueable id) q.rows),
  )

  unfoldable pub pending_total : PgQueue C → ℕ
  pending_total q = count (λ row. is_pending row.status) q.rows

  abbrev pub is_old_failure : ℕ → Option Str → PgQueueRow C → Bool
  is_old_failure older_than tenant row =
      is_failed row.status && (ltb row.enqueued_at older_than && of_tenant tenant row.tenant_id)

  unfoldable pub cleanup_failed : ℕ → Option Str → PgQueue C → PgQueue C × ℕ
  cleanup_failed older_than tenant q = (
    record q { rows = keep (λ row. not (is_old_failure older_than tenant row)) q.rows },
    count (is_old_failure older_than tenant) q.rows,
  )

  abbrev pub is_stale : ℕ → Option Str → PgQueueRow C → Bool
  is_stale older_than tenant row =
      is_claimed row.status
      && (claimed_before older_than row.claimed_at && of_tenant tenant row.tenant_id)

  unfoldable pub reset_stale_claimed : ℕ → Option Str → Option Str → PgQueue C → PgQueue C × ℕ
  unfolding update_where
  reset_stale_claimed older_than tenant reason q = (
    record q {
      rows =
          update_where (is_stale older_than tenant)
            (λ row. record row {
              status = pending;
              claimed_at = none;
              last_error =
                  some (or_else row.last_error (or_else reason (codes "watchdog: stale claimed")));
            })
            q.rows;
    },
    count (is_stale older_than tenant) q.rows,
  )
