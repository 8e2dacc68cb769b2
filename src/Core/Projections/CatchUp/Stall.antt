-- ===== src/Core/Projections/CatchUp/Stall.antt =====
-- A batch that holds dismissed events only.
use eventfabric.Base.{◌≡◌, refl, Str, true, false, List, [], ◌∷◌, arith, keep, take, All, ok}
use eventfabric.Core.Types.{EventEnvelope}
use eventfabric.Core.Projections.Checkpoints.{get, get-position, position-get}
use eventfabric.Core.Projections.EventLog.{is_dismissed, is_wanted, is_past, load_global}
use eventfabric.Core.Projections.CatchUp.{
  CatchUpProjection, CatchUpOptions, CatchUpState, handle_batch, process_tenant_batch,
}
use eventfabric.Core.Projections.CatchUp.Batch.{at}

module _ {P A : Type 0} (opts : CatchUpOptions) (log : List (EventEnvelope P))
    (projection : CatchUpProjection P A) where
  none_wanted :
      (es : List (EventEnvelope P))
      → All (λ e. is_dismissed e.dismissed ≡ true) es
      → keep (is_wanted false) es ≡ []
  none_wanted [] h = refl
  none_wanted (e ∷ es) h = ground (arith, h.0, none_wanted es h.1)

  process_empty :
      (tenant_id : Str) (s : CatchUpState A)
      → let (from, checkpoints) = get projection.name tenant_id s.checkpoints in
        load_global from opts.batch_size opts.include_dismissed tenant_id log ≡ []
        → process_tenant_batch opts log projection tenant_id s
          ≡ (ok false, record s { checkpoints = checkpoints })
  unfolding process_tenant_batch handle_batch
  process_empty tenant_id s e = ground (arith, e)

  -- Where dismissed events are not wanted and the tenant's next events, as many as a batch holds,
  -- are all dismissed, the tenant counts as drained: no event is handled and the checkpoint stays,
  -- whatever events follow.
  pub process_tenant_batch-stalled :
      (tenant_id : Str) (s : CatchUpState A)
      → opts.include_dismissed ≡ false
      → All
          (λ e. is_dismissed e.dismissed ≡ true)
          (take opts.batch_size (keep (is_past tenant_id (at opts log projection tenant_id s)) log))
      → let (r, s') = process_tenant_batch opts log projection tenant_id s in
        (r ≡ ok false)
        × (s'.app ≡ s.app)
        × (at opts log projection tenant_id s' ≡ at opts log projection tenant_id s)
  unfolding load_global
  process_tenant_batch-stalled tenant_id s unwanted dismissed =
      let empty =
        none_wanted
          (take opts.batch_size (keep (is_past tenant_id (at opts log projection tenant_id s)) log))
          dismissed in
      let start = get-position projection.name tenant_id s.checkpoints in
      let e : load_global (get projection.name tenant_id s.checkpoints).0 opts.batch_size
            opts.include_dismissed tenant_id log
          ≡ [] =
        rw (start, unwanted) empty in
      let there = position-get projection.name tenant_id projection.name tenant_id s.checkpoints in
      let done = process_empty tenant_id s e in (rw done refl, rw done refl, rw done there)
