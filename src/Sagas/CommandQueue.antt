-- ===== src/Sagas/CommandQueue.antt =====
-- packages/sagas/src/in-memory-saga-command-queue.ts. The clock is an argument of the calls that
-- read it.
pub mod Claim
pub mod Rows
use eventfabric.Base.{
  ℕ, suc, ◌+◌, Str, Bool, true, false, ◌&&◌, not, Option, none, some, List, [], ◌∷◌, map, ◌++◌,
  str_eq, decimal, ltb, leb, if◌then◌else◌, keep, length,
}
use eventfabric.Mediator.Command.{Command}

pub data RowStatus : Type 0 where
  pending claimed dispatched : RowStatus

-- `status === "pending"` and `status === "claimed"`
abbrev pub is_pending : RowStatus → Bool
is_pending pending = true
is_pending _ = false

abbrev pub is_claimed : RowStatus → Bool
is_claimed claimed = true
is_claimed _ = false

-- `row.nextAttemptAt !== null && row.nextAttemptAt > now`
abbrev pub held_back : ℕ → Option ℕ → Bool
held_back now none = false
held_back now (some at) = ltb now at

module _ (C : Type 0) where
  -- `Row`
  pub record Row : Type 0 where
    pub id : Str
    pub tenant_id : Str
    pub saga_name : Str
    pub instance_id : Str
    pub command : Command C
    pub attempts : ℕ
    pub status : RowStatus
    pub enqueued_at : ℕ
    pub last_error : Option Str
    pub causation_event_id : Option Str
    pub next_attempt_at : Option ℕ

  -- `SagaCommandQueueItem`
  pub record QueueItem : Type 0 where
    pub id : Str
    pub tenant_id : Str
    pub saga_name : Str
    pub instance_id : Str
    pub command : Command C
    pub attempts : ℕ
    pub causation_event_id : Option Str

  -- `InMemorySagaCommandQueue`
  pub record CommandQueue : Type 0 where
    pub rows : List Row
    pub next_id : ℕ

module _ {C : Type 0} where
  pub empty_queue : CommandQueue C
  empty_queue = record { rows = []; next_id = 1 }

  unfoldable pub enqueue :
      Str → Str → Str → Command C → Option Str → ℕ → CommandQueue C → CommandQueue C
  enqueue tenant_id saga_name instance_id command causation_event_id now q = record {
    rows =
        q.rows
        ++ (record {
          id = decimal q.next_id;
          tenant_id = tenant_id;
          saga_name = saga_name;
          instance_id = instance_id;
          command = command;
          attempts = 0;
          status = pending;
          enqueued_at = now;
          last_error = none;
          causation_event_id = causation_event_id;
          next_attempt_at = none;
        }
            ∷ []);
    next_id = suc q.next_id;
  }

  -- The two `continue` guards of `claimBatch`.
  abbrev pub claimable : ℕ → Row C → Bool
  claimable now row = is_pending row.status && not (held_back now row.next_attempt_at)

  abbrev pub claim_row : Row C → Row C
  claim_row row = record row { status = claimed; attempts = suc row.attempts }

  abbrev pub item_of : Row C → QueueItem C
  item_of row = record {
    id = row.id;
    tenant_id = row.tenant_id;
    saga_name = row.saga_name;
    instance_id = row.instance_id;
    command = row.command;
    attempts = row.attempts;
    causation_event_id = row.causation_event_id;
  }

  -- The loop of `claimBatch`, when `taken` rows are claimed already.
  unfoldable pub claim_rows : ℕ → ℕ → ℕ → List (Row C) → List (Row C) × List (QueueItem C)
  claim_rows now batch_size taken [] = ([], [])
  claim_rows now batch_size taken (row ∷ rows) =
      let rest = claim_rows now batch_size (if claimable now row then suc taken else taken) rows in
      if leb batch_size taken
      then (row ∷ rows, [])
      else if claimable now row
      then (claim_row row ∷ rest.0, item_of (claim_row row) ∷ rest.1)
      else (row ∷ rest.0, rest.1)

  unfoldable pub claim_batch : ℕ → ℕ → CommandQueue C → CommandQueue C × List (QueueItem C)
  claim_batch batch_size now q =
      let r = claim_rows now batch_size 0 q.rows in (record q { rows = r.0 }, r.1)

  -- Changes the first row with the id: `find` or `findIndex`, then a write through the result.
  unfoldable pub update_row : Str → (Row C → Row C) → List (Row C) → List (Row C)
  update_row id f [] = []
  update_row id f (row ∷ rows) =
      if str_eq row.id id then f row ∷ rows else row ∷ update_row id f rows

  unfoldable pub ack : Str → CommandQueue C → CommandQueue C
  ack id q = record q { rows = update_row id (λ row. record row { status = dispatched }) q.rows }

  unfoldable pub release_with_error : Str → Str → Option ℕ → CommandQueue C → CommandQueue C
  release_with_error id message delay_until q = record q {
    rows =
        update_row id
          (λ row. record row {
            status = pending;
            last_error = some message;
            next_attempt_at = delay_until;
          })
          q.rows;
  }

  pub pending_rows : CommandQueue C → List (Row C)
  pending_rows q = keep (λ row. is_pending row.status) q.rows
