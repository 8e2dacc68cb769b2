-- ===== src/Core/Projections/Async/Batches.antt =====
-- One transaction for a batch, in packages/core/src/projections/async-projection-runner.ts.
use eventfabric.Base.{ℕ, ◌≡◌, Bool, List, Result, ok, err, Error, Str}
use eventfabric.Core.Types.{EventEnvelope}
use eventfabric.Core.Projections.Outbox.{OutboxRow}
use eventfabric.Core.Projections.Async.{AsyncProjection, AsyncState, on_outbox}
use eventfabric.Core.Projections.Async.BatchMode.{release_each}
use eventfabric.Core.Projections.Async.BatchRows.{leaves, without}

module _ {P A : Type 0} (log : List (EventEnvelope P)) (projections : List (AsyncProjection P A))
    (include_dismissed : Bool) (max_attempts : ℕ) (text : Error → Str) where
  -- The outbox behind a batch: without the rows that leave, or as it was with all rows released.
  abbrev pub SettlesBatch :
      List OutboxRow → AsyncState A → Result (Unit {0}) × AsyncState A → Type 0
  SettlesBatch claimed s (ok _, s') =
      s'.outbox.rows ≡ without (leaves log max_attempts) claimed s.outbox.rows
  SettlesBatch claimed s (err e, s') = s' ≡ on_outbox (release_each (text e) claimed) s
