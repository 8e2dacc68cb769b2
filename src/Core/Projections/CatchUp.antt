-- ===== src/Core/Projections/CatchUp.antt =====
-- packages/core/src/projections/catch-up-projector.ts, over the stores of Checkpoints and EventLog.
-- The log is an argument: events that are appended meanwhile are for the next call. The list of
-- tenants, which `discoverActiveTenants` gives, is an argument too; Discovery computes it.
pub mod Batch
pub mod Between
pub mod Discovery
pub mod Drained
pub mod Finish
pub mod Once
pub mod Stall
use eventfabric.Base.{
  ℕ, zero, suc, Str, Bool, true, false, not, ◌&&◌, Option, none, some, List, [], ◌∷◌, leb, or_else,
  if◌then◌else◌, Action, Result, ok, err, ◌>>◌, pure, with_transaction,
}
use eventfabric.Core.Types.{EventEnvelope}
use eventfabric.Core.Projections.Checkpoints.{Checkpoints, get, set}
use eventfabric.Core.Projections.EventLog.{is_dismissed, load_global, last_position}

-- `CatchUpProjection`: the handler gets a transaction of a tenant.
pub record CatchUpProjection (P A : Type 0) : Type 0 where
  pub name : Str
  pub handle : Str → EventEnvelope P → Action A (Unit {0})

pub record CatchUpOptions : Type 0 where
  pub batch_size : ℕ
  pub include_dismissed : Bool
  pub max_batches : Option ℕ

-- The defaults.
abbrev pub catch_up_options : Option ℕ → Option Bool → Option ℕ → CatchUpOptions
catch_up_options batch_size include_dismissed max_batches = record {
  batch_size = or_else batch_size 500;
  include_dismissed = or_else include_dismissed false;
  max_batches = max_batches;
}

-- What the projector writes: the checkpoints, and the read model of the handlers.
pub record CatchUpState (A : Type 0) : Type 0 where
  pub checkpoints : Checkpoints
  pub app : A

-- `maxBatches !== undefined && passes >= maxBatches`
abbrev pub is_spent : Option ℕ → ℕ → Bool
is_spent none passes = false
is_spent (some limit) passes = leb limit passes

-- `didWork`, where a failed batch counts as none.
abbrev pub did_work : Result Bool → Bool
did_work (ok b) = b
did_work (err _) = false

module _ {P A : Type 0} (opts : CatchUpOptions) (log : List (EventEnvelope P))
    (projection : CatchUpProjection P A) where
  -- The loop over a batch: dismissed events that are not wanted are passed over.
  unfoldable pub handle_events : Str → List (EventEnvelope P) → Action A (Unit {0})
  handle_events tenant_id [] = pure tt
  handle_events tenant_id (e ∷ es) =
      let rest = handle_events tenant_id es in
      if is_dismissed e.dismissed && not opts.include_dismissed
      then rest
      else projection.handle tenant_id e >> rest

  -- The batch that was loaded from a position is handled and the checkpoint set to its last event;
  -- an empty batch changes nothing.
  unfoldable pub handle_batch : Str → ℕ → List (EventEnvelope P) → Action (CatchUpState A) Bool
  handle_batch tenant_id from [] s = (ok false, s)
  handle_batch tenant_id from (e ∷ es) s =
      let (r, a) = handle_events tenant_id (e ∷ es) s.app in
      elim r [
        | ok _ ↦ (
          ok true,
          record {
            checkpoints = set projection.name tenant_id (last_position from (e ∷ es)) s.checkpoints;
            app = a;
          },
        )
        | err x ↦ (err x, record s { app = a })
      ]

  -- The body of the transaction.
  abbrev pub read_and_handle : Str → Action (CatchUpState A) Bool
  read_and_handle tenant_id s =
      let (from, checkpoints) = get projection.name tenant_id s.checkpoints in
      handle_batch tenant_id from
        (load_global from opts.batch_size opts.include_dismissed tenant_id log)
        (record s { checkpoints = checkpoints })

  unfoldable pub process_tenant_batch : Str → Action (CatchUpState A) Bool
  process_tenant_batch tenant_id = with_transaction (read_and_handle tenant_id)

  -- One pass over the pending tenants; those stay pending whose batch did some work. A tenant whose
  -- batch fails is dropped as well.
  unfoldable pub run_pass : List Str → CatchUpState A → List Str × CatchUpState A
  run_pass [] s = ([], s)
  run_pass (t ∷ ts) s =
      let (r, s') = process_tenant_batch t s in
      let (pending, s'') = run_pass ts s' in (if did_work r then t ∷ pending else pending, s'')

  -- The `while` loop, on fuel, with the number of passes so far.
  unfoldable pub catch_up_loop : ℕ → ℕ → List Str → CatchUpState A → Option (CatchUpState A)
  catch_up_loop fuel passes [] s = some s
  catch_up_loop zero passes (t ∷ ts) s = none
  catch_up_loop (suc fuel) passes (t ∷ ts) s =
      let (pending, s') = run_pass (t ∷ ts) s in
      let rest = catch_up_loop fuel (suc passes) pending s' in
      if is_spent opts.max_batches passes then some s else rest

  unfoldable pub catch_up_projection : ℕ → List Str → CatchUpState A → Option (CatchUpState A)
  catch_up_projection fuel tenants s = catch_up_loop fuel 0 tenants s

-- The projections one after the other; the log tells all of them the same tenants.
pub catch_up_all :
    {P A : Type 0}
    → CatchUpOptions
    → List (EventEnvelope P)
    → ℕ
    → List Str
    → List (CatchUpProjection P A)
    → CatchUpState A
    → Option (CatchUpState A)
unfolding catch_up_projection
catch_up_all opts log fuel tenants [] s = some s
catch_up_all opts log fuel tenants (p ∷ ps) s =
    elim (catch_up_projection opts log p fuel tenants s) [
      | none ↦ none
      | some s' ↦ catch_up_all opts log fuel tenants ps s'
    ]
