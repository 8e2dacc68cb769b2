-- ===== src/Core/Projections/Async.antt =====
-- packages/core/src/projections/async-projection-runner.ts, with one transaction per row; BatchMode
-- has the other mode, and the rounds.
-- `text` is what `error.stack || error.message` gives of an error.
pub mod BatchMode
pub mod Claims
pub mod Rounds
pub mod BatchRows
pub mod Found
pub mod Batches
pub mod Rows
pub mod Stranded
pub mod Redelivery
pub mod PassedOver
use eventfabric.Base.{
  ℕ, Str, Bool, not, ◌&&◌, Option, none, some, List, [], ◌∷◌, ◌==◌, ltb, leb, if◌then◌else◌, Action,
  Result, ok, err, ◌>>◌, pure, modify, with_transaction, keep, Error,
}
use eventfabric.Core.Types.{EventEnvelope}
use eventfabric.Core.Projections.TopicFilter.{TopicFilter, matches_topic}
use eventfabric.Core.Projections.Checkpoints.{Checkpoints, get, set}
use eventfabric.Core.Projections.EventLog.{is_dismissed}
use eventfabric.Core.Projections.Outbox.{Outbox, OutboxRow, ack, dead_letter, release_with_error}

-- `AsyncProjection`; the handler gets the transaction narrowed to the event's tenant.
pub record AsyncProjection (P A : Type 0) : Type 0 where
  pub name : Str
  pub topic_filter : Option TopicFilter
  pub handle : Str → EventEnvelope P → Action A (Unit {0})

pub record AsyncState (A : Type 0) : Type 0 where
  pub outbox : Outbox
  pub checkpoints : Checkpoints
  pub app : A

module _ {P A : Type 0} where
  -- One event for one projection: passed over where the topic does not match or the checkpoint is
  -- at the event or behind it.
  unfoldable pub run_projection :
      EventEnvelope P → Option Str → AsyncProjection P A → Action (AsyncState A) (Unit {0})
  run_projection env topic p s =
      let (from, checkpoints) = get p.name env.tenant_id s.checkpoints in
      let (r, a) = p.handle env.tenant_id env s.app in
      if not (matches_topic p.topic_filter topic)
      then (ok tt, s)
      else if leb env.global_position from
      then (ok tt, record s { checkpoints = checkpoints })
      else elim r [
        | ok _ ↦ (
          ok tt,
          record s {
            checkpoints = set p.name env.tenant_id env.global_position checkpoints;
            app = a;
          },
        )
        | err e ↦ (err e, record s { checkpoints = checkpoints; app = a })
      ]

  unfoldable pub run_projections :
      EventEnvelope P → Option Str → List (AsyncProjection P A) → Action (AsyncState A) (Unit {0})
  run_projections env topic [] = pure tt
  run_projections env topic (p ∷ ps) = run_projection env topic p >> run_projections env topic ps

-- `loadByGlobalPositions` for one position, and the first event of the answer.
unfoldable pub event_at : {P : Type 0} → ℕ → List (EventEnvelope P) → Option (EventEnvelope P)
event_at position [] = none
event_at position (e ∷ es) =
    let rest = event_at position es in if e.global_position == position then some e else rest

abbrev pub on_outbox : {A : Type 0} → (Outbox → Outbox) → AsyncState A → AsyncState A
on_outbox f s = record s { outbox = f s.outbox }

module _ {P A : Type 0} (log : List (EventEnvelope P)) (projections : List (AsyncProjection P A))
    (include_dismissed : Bool) (max_attempts : ℕ) (text : Error → Str) where
  -- The transaction for one row.
  unfoldable pub settle_row : OutboxRow → Action (AsyncState A) (Unit {0})
  settle_row row =
      if ltb max_attempts row.attempts
      then modify (on_outbox (dead_letter row.id))
      else elim (event_at row.global_position log) [
        | none ↦ modify (on_outbox (dead_letter row.id))
        | some env ↦
            if is_dismissed env.dismissed && not include_dismissed
            then modify (on_outbox (ack row.id))
            else run_projections env row.topic projections >> modify (on_outbox (ack row.id))
      ]

  -- On an error the row is released in a transaction of its own, and the error is thrown again.
  unfoldable pub process_one : OutboxRow → Action (AsyncState A) (Unit {0})
  process_one row s =
      let (r, s') = with_transaction (settle_row row) s in
      elim r [
        | ok _ ↦ (ok tt, s')
        | err e ↦ (err e, on_outbox (release_with_error row.id (text e)) s')
      ]
