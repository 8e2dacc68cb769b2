-- ===== src/Core/Projections/Async/BatchMode.antt =====
-- The mode of one transaction for a batch in
-- packages/core/src/projections/async-projection-runner.ts, and the rounds of `start`.
use eventfabric.Base.{
  ℕ, Str, Bool, true, false, not, ◌&&◌, Option, none, some, List, [], ◌∷◌, map, ◌==◌, ltb, leb,
  if◌then◌else◌, Action, ok, err, ◌>>◌, pure, modify, with_transaction, keep, Error,
}
use eventfabric.Core.Types.{EventEnvelope}
use eventfabric.Core.Projections.EventLog.{is_dismissed}
use eventfabric.Core.Projections.Outbox.{
  Outbox, OutboxRow, ack, claim_batch, dead_letter, release_with_error,
}
use eventfabric.Core.Projections.Async.{
  AsyncProjection, AsyncState, run_projections, on_outbox, process_one,
}

abbrev pub includes_position : List ℕ → ℕ → Bool
includes_position [] n = false
includes_position (m ∷ ms) n = if m == n then true else includes_position ms n

-- `loadByGlobalPositions`, on a log in the order of its positions.
unfoldable pub events_at : {P : Type 0} → List ℕ → List (EventEnvelope P) → List (EventEnvelope P)
events_at positions log = keep (λ e. includes_position positions e.global_position) log

-- `rowByPos.get`: the last of the rows that were set for a position.
unfoldable pub row_at : ℕ → List OutboxRow → Option OutboxRow
row_at position [] = none
row_at position (r ∷ rs) = elim (row_at position rs) [
  | some q ↦ some q
  | none ↦ if r.global_position == position then some r else none
]

unfoldable pub release_each : Str → List OutboxRow → Outbox → Outbox
release_each message [] o = o
release_each message (r ∷ rs) o = release_each message rs (release_with_error r.id message o)

unfoldable pub dead_letter_over : ℕ → List OutboxRow → Outbox → Outbox
dead_letter_over max_attempts [] o = o
dead_letter_over max_attempts (r ∷ rs) o =
    dead_letter_over max_attempts rs (if ltb max_attempts r.attempts then dead_letter r.id o else o)

abbrev pub position_of : OutboxRow → ℕ
position_of r = r.global_position

abbrev pub remaining_rows : ℕ → List OutboxRow → List OutboxRow
remaining_rows max_attempts = keep (λ r. leb r.attempts max_attempts)

-- `transactionMode`
pub data TransactionMode : Type 0 where
  batch per_row : TransactionMode

module _ {P A : Type 0} (log : List (EventEnvelope P)) (projections : List (AsyncProjection P A))
    (include_dismissed : Bool) (max_attempts : ℕ) (text : Error → Str) where
  unfoldable pub settle_event : List OutboxRow → EventEnvelope P → Action (AsyncState A) (Unit {0})
  settle_event rows env = elim (row_at env.global_position rows) [
    | none ↦ pure tt
    | some row ↦
        if is_dismissed env.dismissed && not include_dismissed
        then modify (on_outbox (ack row.id))
        else run_projections env row.topic projections >> modify (on_outbox (ack row.id))
  ]

  unfoldable pub settle_events :
      List OutboxRow → List (EventEnvelope P) → Action (AsyncState A) (Unit {0})
  settle_events rows [] = pure tt
  settle_events rows (env ∷ envs) = settle_event rows env >> settle_events rows envs

  unfoldable pub settle_remaining : List OutboxRow → Action (AsyncState A) (Unit {0})
  settle_remaining [] = pure tt
  settle_remaining (r ∷ rs) = settle_events (r ∷ rs) (events_at (map position_of (r ∷ rs)) log)

  -- The transaction for a batch.
  unfoldable pub settle_batch : List OutboxRow → Action (AsyncState A) (Unit {0})
  unfolding dead_letter_over settle_remaining
  settle_batch claimed =
      modify (on_outbox (dead_letter_over max_attempts claimed))
      >> settle_remaining (remaining_rows max_attempts claimed)

  -- On an error all claimed rows are released in a transaction of its own.
  unfoldable pub process_batch : List OutboxRow → Action (AsyncState A) (Unit {0})
  unfolding settle_batch release_each
  process_batch claimed s =
      let (r, s') = with_transaction (settle_batch claimed) s in
      elim r [ ok _ ↦ (ok tt, s') | err e ↦ (err e, on_outbox (release_each (text e) claimed) s') ]

  -- The loop over the rows of a batch; it ends at the first row that throws.
  unfoldable pub process_rows : List OutboxRow → Action (AsyncState A) (Unit {0})
  process_rows [] = pure tt
  process_rows (r ∷ rs) =
      process_one log projections include_dismissed max_attempts text r >> process_rows rs

  unfoldable pub process : TransactionMode → List OutboxRow → Action (AsyncState A) (Unit {0})
  unfolding process_batch process_rows
  process batch rows = process_batch rows
  process per_row rows = process_rows rows

  -- One round of the loop in `start`: a batch is claimed and processed. What is thrown is followed
  -- by a pause, and by the next round.
  unfoldable pub run_round :
      TransactionMode → ℕ → Str → Option Str → Action (AsyncState A) (Unit {0})
  unfolding process
  run_round mode batch_size worker_id topic s =
      let (outbox, claimed) = claim_batch batch_size worker_id topic s.outbox in
      process mode claimed (record s { outbox = outbox })
