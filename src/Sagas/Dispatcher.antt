-- ===== src/Sagas/Dispatcher.antt =====
-- packages/sagas/src/saga-command-dispatcher.ts over the in-memory queue. The command bus is an
-- argument, which works on a state `B` of its own; the clock stands still within a round. Observers
-- and the polling loop around `runOnce` change no state.
pub mod Outcome
pub mod ExactlyOnce
use eventfabric.Base.{
  ℕ, zero, suc, ◌+◌, ◌*◌, ◌-◌, ◌^◌, min, Str, Bool, true, false, Option, none, some, List, [], ◌∷◌,
  ◌++◌, codes, ltb, leb, if◌then◌else◌, length, Action, Result, ok, err, Error, error_message,
  or_else,
}
use eventfabric.Mediator.Command.{Command}
use eventfabric.Sagas.CommandQueue.{CommandQueue, QueueItem, claim_batch, ack, release_with_error}

pub record DispatcherOptions (C : Type 0) : Type 0 where
  pub batch_size : ℕ
  pub max_attempts : ℕ
  pub retry_backoff_ms : ℕ → ℕ
  -- `queue.markFailed`, which the in-memory queue does not have.
  pub mark_failed : Option (Str → Error → CommandQueue C → CommandQueue C)

-- The default back-off: `Math.min(60_000, 250 * 2 ** Math.max(0, attempts - 1))`.
abbrev pub default_backoff_ms : ℕ → ℕ
default_backoff_ms attempts = min 60_000 (250 * 2 ^ (attempts - 1))

-- The constructor's defaults.
abbrev pub dispatcher_options :
    {C : Type 0} → Option ℕ → Option ℕ → Option (ℕ → ℕ) → DispatcherOptions C
dispatcher_options batch_size max_attempts retry_backoff_ms = record {
  batch_size = or_else batch_size 32;
  max_attempts = or_else max_attempts 5;
  retry_backoff_ms = or_else retry_backoff_ms default_backoff_ms;
  mark_failed = none;
}

pub record DispatcherRoundResult : Type 0 where
  pub claimed : ℕ
  pub dispatched : ℕ
  pub failed : ℕ
  pub released : ℕ

-- `saga:${row.sagaName}:${row.instanceId}:${row.id}`
unfoldable pub dispatch_key : Str → Str → Str → Str
dispatch_key saga_name instance_id id =
    codes "saga:" ++ (saga_name ++ (codes ":" ++ (instance_id ++ (codes ":" ++ id))))

-- `a ?? b` of two optional fields
abbrev pub or_option : {A : Type 0} → Option A → Option A → Option A
or_option none b = b
or_option (some a) b = some a

-- `backoffMs > 0 ? now + backoffMs : undefined`
abbrev pub delay_until : ℕ → ℕ → Option ℕ
delay_until now zero = none
delay_until now (suc ms) = some (now + suc ms)

-- What a worker has at hand while it dispatches a batch.
pub record Round (C B : Type 0) : Type 0 where
  pub queue : CommandQueue C
  pub bus : B
  pub dispatched : ℕ
  pub failed : ℕ
  pub released : ℕ

module _ {C : Type 0} where
  unfoldable pub rewrite_command : QueueItem C → Command C
  rewrite_command row =
      let metadata = row.command.metadata in
      let command = row.command in
      record command {
        metadata = record metadata {
          idempotency_key = dispatch_key row.saga_name row.instance_id row.id;
          correlation_id = some (or_else metadata.correlation_id row.instance_id);
          causation_id = or_option metadata.causation_id row.causation_event_id;
          tenant_id = some row.tenant_id;
        };
      }

  -- `markFailed` where the queue has it, and otherwise a release without a delay.
  abbrev pub give_up : DispatcherOptions C → Str → Error → CommandQueue C → CommandQueue C
  give_up opts id error q = elim opts.mark_failed [
    | some mark_failed ↦ mark_failed id error q
    | none ↦ release_with_error id (error_message error) none q
  ]

module _ {C R B : Type 0} (opts : DispatcherOptions C) (send : Command C → Action B R)
    (now : ℕ) where
  -- The outcome of one dispatch, written back to the queue.
  unfoldable pub after_send : QueueItem C → Result R → Round C B → Round C B
  after_send row (ok result) s = record s {
    queue = ack row.id s.queue;
    dispatched = suc s.dispatched;
  }
  after_send row (err error) s =
      if leb opts.max_attempts row.attempts
      then record s { queue = give_up opts row.id error s.queue; failed = suc s.failed }
      else record s {
        queue =
            release_with_error row.id (error_message error)
              (delay_until now (opts.retry_backoff_ms row.attempts)) s.queue;
        released = suc s.released;
      }

  unfoldable pub dispatch_row : QueueItem C → Round C B → Round C B
  unfolding after_send
  dispatch_row row s =
      let (r, b) = send (rewrite_command row) s.bus in after_send row r (record s { bus = b })

  unfoldable pub dispatch_rows : List (QueueItem C) → Round C B → Round C B
  unfolding dispatch_row
  dispatch_rows [] s = s
  dispatch_rows (row ∷ rows) s = dispatch_rows rows (dispatch_row row s)

  -- `runOnce`
  unfoldable pub run_once : CommandQueue C → B → Round C B × DispatcherRoundResult
  unfolding dispatch_rows
  run_once q b =
      let (q', rows) = claim_batch opts.batch_size now q in
      let start : Round C B = record {
        queue = q';
        bus = b;
        dispatched = 0;
        failed = 0;
        released = 0;
      } in
      let end : Round C B = dispatch_rows rows start in
      (
        end,
        record {
          claimed = length rows;
          dispatched = end.dispatched;
          failed = end.failed;
          released = end.released;
        },
      )
