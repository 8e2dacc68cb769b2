-- ===== src/Core/Projections/Async/PassedOver.antt =====
-- A row whose event comes to packages/core/src/projections/async-projection-runner.ts behind a
-- later event of its tenant: a retry, a dead letter that is requeued, or an event that was
-- committed late.
use eventfabric.Base.{
  ℕ, ◌≤◌, ◌≡◌, subst, Str, Bool, false, Option, some, List, arith, All, All-map, Result, ok, err,
  inl, inr, Result-cases, Error,
}
use eventfabric.Core.Types.{EventEnvelope}
use eventfabric.Core.Projections.Checkpoints.{position}
use eventfabric.Core.Projections.EventLog.{is_dismissed}
use eventfabric.Core.Projections.Outbox.{OutboxRow, IsSettled, ack}
use eventfabric.Core.Projections.Async.{
  AsyncProjection, AsyncState, event_at, run_projections, settle_row, process_one, on_outbox,
}
use eventfabric.Core.Projections.Async.Rows.{Settles, process_one-Settles}
use eventfabric.Core.Projections.Async.Redelivery.{
  IsDone, IsDone-forward, run_projections-IsDone, All-IsDone,
}

module _ {P A : Type 0} (log : List (EventEnvelope P)) (projections : List (AsyncProjection P A))
    (include_dismissed : Bool) (max_attempts : ℕ) (text : Error → Str) where
  -- A row for which no projection has anything to do.
  settle_row-app :
      (row : OutboxRow) (s : AsyncState A) (env : EventEnvelope P)
      → event_at row.global_position log ≡ some env
      → All (IsDone env row.topic s) projections
      → ((settle_row log projections include_dismissed max_attempts text row s).0 ≡ ok tt)
        × ((settle_row log projections include_dismissed max_attempts text row s).1.app ≡ s.app)
  unfolding settle_row
  settle_row-app row s env e d = ground (arith, e, All-IsDone env row.topic projections s d)

  process_one-app :
      (row : OutboxRow) (s : AsyncState A) (env : EventEnvelope P)
      → event_at row.global_position log ≡ some env
      → All (IsDone env row.topic s) projections
      → ((process_one log projections include_dismissed max_attempts text row s).0 ≡ ok tt)
        × ((process_one log projections include_dismissed max_attempts text row s).1.app ≡ s.app)
  unfolding process_one
  process_one-app row s env e d = ground (arith, settle_row-app row s env e d)

  Settles-ok :
      (row : OutboxRow) (s : AsyncState A) (r : Result (Unit {0}) × AsyncState A)
      → Settles log projections include_dismissed max_attempts text row s r
      → r.0 ≡ ok tt
      → IsSettled row.id r.1.outbox
  Settles-ok row s (ok u, s') h e = h.0
  Settles-ok row s (err x, s') h e = cc

  -- The projections are done with the event of a row that was processed.
  process_one-IsDone :
      (row : OutboxRow) (s s' : AsyncState A) (env : EventEnvelope P)
      → row.attempts ≤ max_attempts
      → event_at row.global_position log ≡ some env
      → is_dismissed env.dismissed ≡ false
      → process_one log projections include_dismissed max_attempts text row s ≡ (ok tt, s')
      → All (IsDone env row.topic s') projections
  unfolding process_one settle_row
  process_one-IsDone row s s' env tries e d h =
      let (r, mid) = run_projections env row.topic projections s in
      elim (Result-cases r) [
        | inr (x, failed) ↦ absurd (ground (arith, h, tries, e, d, failed))
        | inl (u, worked) ↦
            let done : run_projections env row.topic projections s ≡ (ok tt, mid) =
              ground (arith, worked) in
            let same : s' ≡ on_outbox (ack row.id) mid = ground (arith, h, tries, e, d, worked) in
            rw same (run_projections-IsDone env row.topic projections s mid done)
      ]

  IsDone-earlier :
      (topic : Option Str) (env later : EventEnvelope P) (s : AsyncState A)
      (p : AsyncProjection P A)
      → later.tenant_id ≡ env.tenant_id
      → env.global_position ≤ later.global_position
      → IsDone later topic s p
      → IsDone env topic s p
  IsDone-earlier topic env later s p same le (inl off) = inl off
  IsDone-earlier topic env later s p same le (inr past) = inr (omega (arith, le, rw same at past))

  -- Once the row of a later event of a tenant was processed, the row of an earlier event of the
  -- same tenant and topic, whenever it comes, is settled without an error and without a change of
  -- the read models, as long as no checkpoint was moved back: it is not handled any more, also
  -- where it failed before or was requeued from the dead letters. The later event is not dismissed,
  -- and its row was not over the limit of attempts.
  pub process_one-passes_over :
      (row later : OutboxRow) (s s' now : AsyncState A) (env next : EventEnvelope P)
      → event_at row.global_position log ≡ some env
      → event_at later.global_position log ≡ some next
      → next.tenant_id ≡ env.tenant_id
      → env.global_position ≤ next.global_position
      → later.topic ≡ row.topic
      → later.attempts ≤ max_attempts
      → is_dismissed next.dismissed ≡ false
      → process_one log projections include_dismissed max_attempts text later s ≡ (ok tt, s')
      → ((n t : Str) → position n t s'.checkpoints ≤ position n t now.checkpoints)
      → let (r, s'') = process_one log projections include_dismissed max_attempts text row now in
        (r ≡ ok tt) × (s''.app ≡ now.app) × IsSettled row.id s''.outbox
  process_one-passes_over row later s s' now env next e f same le topic tries d h forward =
      let past : All (IsDone next row.topic s') projections =
        subst (λ t. All (IsDone next t s') projections) topic
          (process_one-IsDone later s s' next tries f d h) in
      let done : All (IsDone env row.topic now) projections =
        All-map _ _
          (λ p (i : IsDone next row.topic s' p).
            IsDone-forward env row.topic p s' now forward
              (IsDone-earlier row.topic env next s' p same le i))
          projections past in
      let settled = process_one-app row now env e done in
      (
        settled.0,
        settled.1,
        Settles-ok row now (process_one log projections include_dismissed max_attempts text row now)
            (process_one-Settles log projections include_dismissed max_attempts text row now)
            settled.0,
      )
