-- ===== src/Sagas/Scheduler/Deliveries.antt =====
-- What the delivery of one timer does to the stores.
use eventfabric.Base.{
  ℕ, ◌-◌, Str, [], ◌∷◌, ◌≡◌, refl, ap, sym, subst, arith, Dict, Action, Result, ok, err, Error,
  concurrent_saga_transition, with_transaction, with_transaction_rollback,
}
use eventfabric.Sagas.Saga.{Saga}
use eventfabric.Sagas.TimerStore.{
  TimerItem, TimerOwner, TimerStore, fired, matches, set_claimed, mark_fired, release,
}
use eventfabric.Sagas.TimerStore.Unique.{claimed_count}
use eventfabric.Sagas.StateStore.Laws.{IsKeyed}
use eventfabric.Sagas.Runner.{
  SagaStores, SagaTransitionOutcome, applied, skipped, concurrent, timer, apply_saga_transition,
}
use eventfabric.Sagas.Runner.Effects.{pending_at}
use eventfabric.Sagas.Runner.Transition.{Post, apply_saga_transition-Post}
use eventfabric.Sagas.Scheduler.{
  SchedulerOptions, DeliveryResult, delivered, concurrent_delivery, item_owner, on_timers,
  transition_and_mark, after_delivery, deliver,
}

module _ {M : Type 0} where
  -- A timer that fires is no longer claimed; what is pending stays.
  set_fired-pending :
      (o o' : TimerOwner) (id id' : Str) (rows : TimerStore M)
      → pending_at o' id' (set_claimed o id fired rows) ≡ pending_at o' id' rows
  unfolding set_claimed matches
  set_fired-pending o o' id id' [] = refl
  set_fired-pending o o' id id' (row ∷ rows) = ground (arith, set_fired-pending o o' id id' rows)

  set_fired-claimed :
      (o : TimerOwner) (id : Str) (rows : TimerStore M)
      → claimed_count o id (set_claimed o id fired rows) ≡ claimed_count o id rows - 1
  unfolding set_claimed matches
  set_fired-claimed o id [] = refl
  set_fired-claimed o id (row ∷ rows) = ground (arith, set_fired-claimed o id rows)

module _ {S P C M : Type 0} (opts : SchedulerOptions M) (handlers : Dict (Saga S P C M))
    (now : ℕ) where
  -- The transition for a timer, from the stores `w`.
  abbrev transition :
      Saga S P C M
      → TimerItem M
      → SagaStores S C M
      → Result (SagaTransitionOutcome S C M) × SagaStores S C M
  transition saga item w =
      apply_saga_transition saga item.tenant_id now
        (timer item.instance_id item.tenant_id item.message) w

  -- The stores of a transition with its timer marked as fired.
  abbrev Fired : Saga S P C M → TimerItem M → SagaStores S C M → SagaStores S C M → Type 0
  Fired saga item w w' =
      (o : SagaTransitionOutcome S C M) × (mid : SagaStores S C M) × (transition saga item w
        ≡ (ok o, mid))
      × (w'.instances ≡ mid.instances)
      × (w'.queue ≡ mid.queue)
      × ((own : TimerOwner) (id : Str) → pending_at own id w'.timers ≡ pending_at own id mid.timers)
      × (claimed_count (item_owner item) item.id w'.timers
          ≡ claimed_count (item_owner item) item.id mid.timers - 1)

  -- The transition itself has thrown.
  abbrev Threw : Saga S P C M → TimerItem M → SagaStores S C M → Error → Type 0
  Threw saga item w e = (mid : SagaStores S C M) × (transition saga item w ≡ (err e, mid))

  -- What the delivery of one timer may do to the stores.
  abbrev pub Delivers :
      Saga S P C M
      → TimerItem M
      → SagaStores S C M
      → Result DeliveryResult × SagaStores S C M
      → Type 0
  Delivers saga item w (ok delivered, w') = IsKeyed w'.instances × Fired saga item w w'
  Delivers saga item w (ok concurrent_delivery, w') =
      (w' ≡ on_timers (release (item_owner item) item.id) w)
      × Threw saga item w concurrent_saga_transition
  Delivers saga item w (err e, w') = (w' ≡ w) × Threw saga item w e

  Marks :
      Saga S P C M
      → TimerItem M
      → SagaStores S C M
      → Result DeliveryResult × SagaStores S C M
      → Type 0
  Marks saga item w (ok r, w') = (r ≡ delivered) × IsKeyed w'.instances × Fired saga item w w'
  Marks saga item w (err e, w') = Threw saga item w e

  -- The rest of the transaction, after the transition.
  mark_after :
      TimerItem M
      → Result (SagaTransitionOutcome S C M) × SagaStores S C M
      → Result DeliveryResult × SagaStores S C M
  mark_after item (err e, w) = (err e, w)
  mark_after item (ok (concurrent i), w) = (err concurrent_saga_transition, w)
  mark_after item (ok (applied i r), w) =
      (ok delivered, on_timers (mark_fired (item_owner item) item.id) w)
  mark_after item (ok (skipped r), w) =
      (ok delivered, on_timers (mark_fired (item_owner item) item.id) w)

  transition_and_mark_lem :
      (saga : Saga S P C M) (item : TimerItem M) (w : SagaStores S C M)
      → transition_and_mark opts handlers now saga item w
        ≡ mark_after item (
            apply_saga_transition saga item.tenant_id now
              (timer item.instance_id item.tenant_id item.message)
              w)
  unfolding transition_and_mark mark_after
  transition_and_mark_lem saga item w = ground arith

  fires :
      (saga : Saga S P C M) (item : TimerItem M) (w : SagaStores S C M)
      (o : SagaTransitionOutcome S C M) (w' : SagaStores S C M)
      → transition saga item w ≡ (ok o, w')
      → Fired saga item w (on_timers (mark_fired (item_owner item) item.id) w')
  unfolding mark_fired
  fires saga item w o w' t = (
    o,
    w',
    t,
    refl,
    refl,
    λ own id. set_fired-pending (item_owner item) own item.id id w'.timers,
    set_fired-claimed (item_owner item) item.id w'.timers,
  )

  mark_after-Marks :
      (saga : Saga S P C M) (item : TimerItem M) (w : SagaStores S C M)
      (r : Result (SagaTransitionOutcome S C M)) (w' : SagaStores S C M)
      → transition saga item w ≡ (r, w')
      → IsKeyed w.instances
      → Post saga item.tenant_id now (timer item.instance_id item.tenant_id item.message) w (r, w')
      → Marks saga item w (mark_after item (r, w'))
  unfolding mark_after Marks
  mark_after-Marks saga item w (err e) w' t v p = (w', t)
  mark_after-Marks saga item w (ok (concurrent i)) w' t v p = absurd p
  mark_after-Marks saga item w (ok (applied i r)) w' t v p =
      (refl, p.0, fires saga item w (applied i r) w' t)
  mark_after-Marks saga item w (ok (skipped r)) w' t v p =
      (refl, subst (λ x. IsKeyed x.instances) (sym p) v, fires saga item w (skipped r) w' t)

  transition_and_mark-Marks :
      (saga : Saga S P C M) (item : TimerItem M) (w : SagaStores S C M)
      → IsKeyed w.instances
      → Marks saga item w (transition_and_mark opts handlers now saga item w)
  transition_and_mark-Marks saga item w v =
      let d = timer item.instance_id item.tenant_id item.message in
      let (r, w') = apply_saga_transition saga item.tenant_id now d w in
      subst (Marks saga item w) (sym (transition_and_mark_lem saga item w)) (
        mark_after-Marks saga item w r w' refl v
          (apply_saga_transition-Post saga item.tenant_id now d w v))

  after_delivery-Delivers :
      (saga : Saga S P C M) (item : TimerItem M) (w : SagaStores S C M) (r : Result DeliveryResult)
      (w' : SagaStores S C M)
      → Marks saga item w (r, w')
      → ((e : Error) → r ≡ err e → w' ≡ w)
      → Delivers saga item w (after_delivery opts handlers now item (r, w'))
  unfolding Marks
  after_delivery-Delivers saga item w (ok delivered) w' m back = (m.1, m.2)
  after_delivery-Delivers saga item w (ok concurrent_delivery) w' m back = cc (m.0)
  after_delivery-Delivers saga item w (err concurrent_saga_transition) w' m back =
      (ap (on_timers (release (item_owner item) item.id)) (back concurrent_saga_transition refl), m)
  after_delivery-Delivers saga item w (err e) w' m back = (back e refl, m)

  with_transaction-Marks :
      (saga : Saga S P C M) (item : TimerItem M) (m : Action (SagaStores S C M) DeliveryResult)
      (w : SagaStores S C M)
      → Marks saga item w (m w)
      → Marks saga item w (with_transaction m w)
  unfolding Marks
  with_transaction-Marks saga item m w h = committed (m w).0 (m w).1 h
    where
      committed :
          (r : Result DeliveryResult) (w' : SagaStores S C M)
          → Marks saga item w (r, w')
          → Marks saga item w (elim r [ ok a ↦ (ok a, w') | err e ↦ (err e, w) ])
      committed (ok a) w' h = h
      committed (err e) w' h = h

  -- On a keyed store, a delivery that succeeds leaves the instances and the commands of its
  -- transition and keeps the store keyed; of the timer's rows that are still claimed behind the
  -- transition, if any, there is one less, and the pending timers are those that the transition
  -- left. Otherwise the transition itself has thrown: nothing has changed, but that the timer is
  -- given back where the error is the one of a concurrent transition.
  pub deliver-Delivers :
      (saga : Saga S P C M) (item : TimerItem M) (w : SagaStores S C M)
      → IsKeyed w.instances
      → Delivers saga item w (deliver opts handlers now saga item w)
  unfolding deliver
  deliver-Delivers saga item w v =
      let m = transition_and_mark opts handlers now saga item in
      let s = with_transaction m w in
      after_delivery-Delivers saga item w s.0 s.1
        (with_transaction-Marks saga item m w (transition_and_mark-Marks saga item w v))
        (λ e h. with_transaction_rollback m w e h)
