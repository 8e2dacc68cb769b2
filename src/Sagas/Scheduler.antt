-- ===== src/Sagas/Scheduler.antt =====
-- packages/sagas/src/saga-timer-scheduler.ts over the in-memory stores. All registered sagas share
-- one set of stores. Observers, the narrowing to a tenant and the polling loop around `runOnce`
-- change no state.
pub mod Deliveries
pub mod Rounds
use eventfabric.Base.{
  ℕ, zero, suc, Str, Bool, true, false, Option, none, some, List, [], ◌∷◌, length, Dict, lookup,
  Action, Result, ok, err, ◌>>=◌, ◌>>◌, pure, throw, modify, Error, concurrent_saga_transition,
  with_transaction,
}
use eventfabric.Sagas.Saga.{Saga}
use eventfabric.Sagas.TimerStore.{TimerStore, TimerItem, TimerOwner, claim_due, mark_fired, release}
use eventfabric.Sagas.Runner.{
  SagaStores, SagaTransitionOutcome, applied, skipped, concurrent, timer, apply_saga_transition,
}

pub data OrphanPolicy : Type 0 where
  fail discard : OrphanPolicy

pub record SchedulerOptions (M : Type 0) : Type 0 where
  pub batch_size : ℕ
  pub on_orphaned_timer : OrphanPolicy
  -- `timerStore.markFailed`, which the in-memory store does not have.
  pub mark_failed : Option (TimerOwner → Str → TimerStore M → TimerStore M)

pub record TimerRound : Type 0 where
  pub fired : ℕ
  pub released : ℕ
  pub orphaned : ℕ

pub record TimerSchedulerRoundResult : Type 0 where
  pub claimed : ℕ
  pub fired : ℕ
  pub released : ℕ
  pub orphaned : ℕ

-- How the delivery of one timer ended.
pub data DeliveryResult : Type 0 where
  delivered concurrent_delivery : DeliveryResult

abbrev pub item_owner : {M : Type 0} → TimerItem M → TimerOwner
item_owner item = record {
  tenant_id = item.tenant_id;
  saga_name = item.saga_name;
  instance_id = item.instance_id;
}

abbrev pub count_delivery : DeliveryResult → TimerRound → TimerRound
count_delivery delivered n = record n { fired = suc n.fired }
count_delivery concurrent_delivery n = record n { released = suc n.released }

module _ {S C M : Type 0} where
  abbrev pub on_timers : (TimerStore M → TimerStore M) → SagaStores S C M → SagaStores S C M
  on_timers f w = record w { timers = f w.timers }

  -- An orphan is marked as failed where the policy and the store allow it, and as fired otherwise.
  unfoldable pub settle_orphan :
      SchedulerOptions M → TimerItem M → SagaStores S C M → SagaStores S C M
  settle_orphan opts item w = elim opts.on_orphaned_timer [
    | discard ↦ on_timers (mark_fired (item_owner item) item.id) w
    | fail ↦ elim opts.mark_failed [
      | some mark_failed ↦ on_timers (mark_failed (item_owner item) item.id) w
      | none ↦ on_timers (mark_fired (item_owner item) item.id) w
    ]
  ]

module _ {S P C M : Type 0} (opts : SchedulerOptions M) (handlers : Dict (Saga S P C M))
    (now : ℕ) where
  -- The transaction of one delivery: the transition, and the mark on the timer's row.
  unfoldable pub transition_and_mark :
      Saga S P C M → TimerItem M → Action (SagaStores S C M) DeliveryResult
  transition_and_mark saga item = do
    outcome ←
        apply_saga_transition saga item.tenant_id now
          (timer item.instance_id item.tenant_id item.message)
    elim outcome [
      | concurrent _ ↦ throw concurrent_saga_transition
      | applied _ _ ↦ modify (on_timers (mark_fired (item_owner item) item.id)) >> pure delivered
      | skipped _ ↦ modify (on_timers (mark_fired (item_owner item) item.id)) >> pure delivered
    ]

  -- The `catch`: a concurrent transition gives the timer back in a transaction of its own.
  abbrev pub after_delivery :
      TimerItem M
      → Result DeliveryResult × SagaStores S C M
      → Result DeliveryResult × SagaStores S C M
  after_delivery item (ok r, w) = (ok r, w)
  after_delivery item (err concurrent_saga_transition, w) =
      (ok concurrent_delivery, on_timers (release (item_owner item) item.id) w)
  after_delivery item (err e, w) = (err e, w)

  unfoldable pub deliver : Saga S P C M → TimerItem M → Action (SagaStores S C M) DeliveryResult
  deliver saga item w = after_delivery item (with_transaction (transition_and_mark saga item) w)

  -- One item of the batch, with the counts so far.
  unfoldable pub handle_item : TimerItem M → TimerRound → Action (SagaStores S C M) TimerRound
  handle_item item n = elim (lookup item.saga_name handlers) [
    | none ↦ modify (settle_orphan opts item) >> pure (record n { orphaned = suc n.orphaned })
    | some saga ↦ deliver saga item >>= λ r. pure (count_delivery r n)
  ]

  -- The loop over the batch; an error of a reducer leaves it.
  unfoldable pub handle_items :
      List (TimerItem M) → TimerRound → Action (SagaStores S C M) TimerRound
  handle_items [] n w = (ok n, w)
  handle_items (item ∷ items) n w =
      let (r, w') = handle_item item n w in
      elim r [ ok n' ↦ handle_items items n' w' | err e ↦ (err e, w') ]

  -- `runOnce`
  unfoldable pub run_once : Action (SagaStores S C M) TimerSchedulerRoundResult
  run_once w =
      let (timers, items) = claim_due now opts.batch_size w.timers in
      let start : TimerRound = record { fired = 0; released = 0; orphaned = 0 } in
      (handle_items items start >>= λ n. pure (record {
        claimed = length items;
        fired = n.fired;
        released = n.released;
        orphaned = n.orphaned;
      }))
        (record w { timers = timers })
