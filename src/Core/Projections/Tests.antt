-- ===== src/Core/Projections/Tests.antt =====
-- A projection that sums the events of one tenant, at concrete data.
mod Runner
use eventfabric.Base.{
  ℕ, ◌+◌, ◌≡◌, refl, Str, codes, false, str_eq, Option, none, some, List, [], ◌∷◌, arith, ok, err,
  thrown, true, All, ◌++◌, keep, order_by, distinct_on,
}
use eventfabric.Core.Types.{EventEnvelope, Dismissal}
use eventfabric.Core.Projections.Checkpoints.{position, get, set}
use eventfabric.Core.Projections.TopicFilter.{matches_topic}
use eventfabric.Core.Projections.CatchUp.{
  CatchUpProjection, CatchUpState, catch_up_options, process_tenant_batch, catch_up_projection,
}
use eventfabric.Core.Projections.Outbox.{
  OutboxEntry, OutboxRow, IsSettled, claim_batch, claim_entries,
}
use eventfabric.Core.Projections.Async.{
  AsyncProjection, AsyncState, event_at, settle_row, process_one, run_projection, run_projections,
}
use eventfabric.Core.Projections.Async.BatchMode.{per_row, process_batch, process_rows, run_round}
use eventfabric.Core.Projections.Async.Rounds.{IsStranded, claimed_state, run_round-IsStranded}
use eventfabric.Core.Projections.Async.Batches.{SettlesBatch}
use eventfabric.Core.Projections.CatchUp.Discovery.{active_events, catch_up}
use eventfabric.Core.Projections.EventLog.{is_past, count_past}
use eventfabric.Core.Projections.CatchUp.Between.{is_of}
use eventfabric.Core.Projections.CatchUp.Once.{recorder, catch_up-hands_over}
use eventfabric.Core.Projections.CatchUp.Drained.{catch_up-drains}
use eventfabric.Core.Projections.Async.PassedOver.{process_one-passes_over}
use eventfabric.Core.Projections.Async.Rows.{Settles, process_one-Settles}
use eventfabric.Core.Projections.Async.Redelivery.{run_projections-run_projections}
use eventfabric.Core.Projections.CatchUp.Batch.{at, Processes, process_tenant_batch-Processes}
use eventfabric.Core.Projections.CatchUp.Finish.{catch_up_projection-total}
use eventfabric.Core.Projections.CatchUp.Stall.{process_tenant_batch-stalled}

abbrev pub deposited : Str → ℕ → Option Dismissal → EventEnvelope ℕ
deposited tenant position dismissed = record {
  event_id = codes "e";
  tenant_id = tenant;
  aggregate_name = codes "account";
  aggregate_id = codes "a1";
  aggregate_version = 1;
  global_position = position;
  occurred_at = 0;
  payload = record { type = codes "deposited"; version = 1; body = 10 };
  dismissed = dismissed;
  correlation_id = none;
  causation_id = none;
}

abbrev mistake : Dismissal
mistake = record { at = codes "now"; reason = none; by = none }

abbrev pub acme : Str
acme = codes "acme"

abbrev pub log : List (EventEnvelope ℕ)
log = deposited acme 1 (some mistake) ∷ deposited acme 2 none ∷ []

abbrev pub balance : CatchUpProjection ℕ ℕ
balance = record {
  name = codes "balance";
  handle = λ tenant e total. (ok tt, total + e.payload.body);
}

abbrev fresh : CatchUpState ℕ
fresh = record { checkpoints = []; app = 0 }

process_tenant_batch-Processes_example :
    Processes
      (catch_up_options none none none)
      log
      balance
      acme
      fresh
      (process_tenant_batch (catch_up_options none none none) log balance acme fresh)
process_tenant_batch-Processes_example =
    process_tenant_batch-Processes (catch_up_options none none none) log balance acme fresh
      ((omega arith, tt), (tt, tt))

catch_up_projection-total_example :
    (s : CatchUpState ℕ) × (catch_up_projection
        (catch_up_options none none none)
        log
        balance
        3
        (acme ∷ [])
        fresh
      ≡ some s)
catch_up_projection-total_example =
    catch_up_projection-total (catch_up_options none none none) log balance
      ((omega arith, tt), (tt, tt)) (acme ∷ []) fresh

-- One event in a batch: the dismissed one hides the other.
process_tenant_batch-stalled_example :
    let opts = catch_up_options (some 1) none none in
    let (r, s) = process_tenant_batch opts log balance acme fresh in
    (r ≡ ok false) × (s.app ≡ 0) × (at opts log balance acme s ≡ at opts log balance acme fresh)
unfolding str_eq position
process_tenant_batch-stalled_example =
    process_tenant_batch-stalled (catch_up_options (some 1) none none) log balance acme fresh refl
      (refl, tt)

abbrev pub two_events : List (EventEnvelope ℕ)
two_events = deposited acme 2 none ∷ deposited acme 3 none ∷ []

-- Every text counts as before every other.
catch_up-drains_example :
    (s : CatchUpState ℕ) × (catch_up
        (λ t u. true)
        (catch_up_options none none none)
        two_events
        balance
        3
        fresh
      ≡ some s)
    × ((u : Str)
        → count_past u (at (catch_up_options none none none) two_events balance u s) two_events ≡ 0)
unfolding active_events order_by distinct_on str_eq
catch_up-drains_example =
    catch_up-drains (catch_up_options none none none) two_events balance
      ((omega arith, tt), (tt, tt)) (refl, (refl, tt)) (λ t e a. refl) (omega arith) refl
      (λ t u. true) (record { total = λ t u h. refl; trans = λ t u v h k. refl }) (omega arith)
      fresh

abbrev unseen : CatchUpState (List (EventEnvelope ℕ))
unseen = record { checkpoints = []; app = [] }

catch_up-hands_over_example :
    (s : CatchUpState (List (EventEnvelope ℕ))) × (catch_up
        (λ t u. true)
        (catch_up_options none none none)
        two_events
        (recorder (codes "seen"))
        3
        unseen
      ≡ some s)
    × ((u : Str)
        → keep (is_of u) s.app
          ≡ keep (is_of u) unseen.app
            ++ keep
                (is_past u (
                  at
                    (catch_up_options none none none)
                    two_events
                    (recorder (codes "seen"))
                    u
                    unseen))
                two_events)
unfolding active_events order_by distinct_on str_eq
catch_up-hands_over_example =
    catch_up-hands_over (catch_up_options none none none) two_events (codes "seen")
      ((omega arith, tt), (tt, tt)) (refl, (refl, tt)) (omega arith) refl (λ t u. true)
      (record { total = λ t u h. refl; trans = λ t u v h k. refl }) (omega arith) unseen
