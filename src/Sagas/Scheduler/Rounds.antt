-- ===== src/Sagas/Scheduler/Rounds.antt =====
-- What one round of the scheduler does with the timers that it claimed.
use eventfabric.Base.{
  ℕ, suc, ◌+◌, ◌≤◌, ◌≡◌, sym, subst, inl, inr, List, [], ◌∷◌, arith, length, Dict, lookup,
  Option-cases, Result, ok, err,
}
use eventfabric.Sagas.Saga.{Saga}
use eventfabric.Sagas.TimerStore.{TimerItem, claim_due}
use eventfabric.Sagas.TimerStore.Due.{claim_due_lem}
use eventfabric.Sagas.StateStore.Laws.{IsKeyed}
use eventfabric.Sagas.Runner.{SagaStores}
use eventfabric.Sagas.Scheduler.{
  SchedulerOptions, TimerRound, TimerSchedulerRoundResult, DeliveryResult, delivered,
  concurrent_delivery, settle_orphan, deliver, handle_item, handle_items, run_once, count_delivery,
}
use eventfabric.Sagas.Scheduler.Deliveries.{Delivers, deliver-Delivers}

module _ {S P C M : Type 0} (opts : SchedulerOptions M) (handlers : Dict (Saga S P C M))
    (now : ℕ) where
  abbrev round_total : TimerRound → ℕ
  round_total n = n.fired + n.released + n.orphaned

  -- What an item does to the counts and to the keys.
  Counts : TimerRound → ℕ → Result TimerRound × SagaStores S C M → Type 0
  Counts n k (ok n', w') = (round_total n' ≡ round_total n + k) × IsKeyed w'.instances
  Counts n k (err e, w') = IsKeyed w'.instances

  counted :
      (saga : Saga S P C M) (item : TimerItem M) (n : TimerRound) (w : SagaStores S C M)
      (r : Result DeliveryResult) (w' : SagaStores S C M)
      → IsKeyed w.instances
      → Delivers opts handlers now saga item w (r, w')
      → Counts n 1 (elim r [ ok a ↦ (ok (count_delivery a n), w') | err e ↦ (err e, w') ])
  unfolding Counts
  counted saga item n w (ok delivered) w' v h = (omega arith, h.0)
  counted saga item n w (ok concurrent_delivery) w' v h =
      (omega arith, subst (λ x. IsKeyed x.instances) (sym h.0) v)
  counted saga item n w (err e) w' v h = subst (λ x. IsKeyed x.instances) (sym h.0) v

  settle_orphan_keeps :
      (item : TimerItem M) (w : SagaStores S C M)
      → (settle_orphan opts item w).instances ≡ w.instances
  unfolding settle_orphan
  settle_orphan_keeps item w = ground arith

  orphan_counted :
      (item : TimerItem M) (n : TimerRound) (w : SagaStores S C M)
      → IsKeyed w.instances
      → Counts n 1 (ok (record n { orphaned = suc n.orphaned }), settle_orphan opts item w)
  unfolding Counts
  orphan_counted item n w v = (omega arith, rw (settle_orphan_keeps item w) v)

  more_counts :
      (n m : TimerRound) (k : ℕ) (s : Result TimerRound × SagaStores S C M)
      → round_total m ≡ round_total n + 1
      → Counts m k s
      → Counts n (suc k) s
  unfolding Counts
  more_counts n m k (ok n', w') e h = (omega (arith, h.0), h.1)
  more_counts n m k (err x, w') e h = h

  -- The loop's step: an error leaves it, and otherwise the rest of the batch follows.
  continued :
      (items : List (TimerItem M)) (n : TimerRound) (r : Result TimerRound) (w' : SagaStores S C M)
      → Counts n 1 (r, w')
      → ((m : TimerRound)
          → IsKeyed w'.instances
          → Counts m (length items) (handle_items opts handlers now items m w'))
      → Counts n
          (suc (length items))
          (elim r [ ok m ↦ handle_items opts handlers now items m w' | err e ↦ (err e, w') ])
  unfolding Counts
  continued items n (err e) w' h rest = h
  continued items n (ok m) w' h rest =
      more_counts n m (length items) (handle_items opts handlers now items m w') h.0 (rest m h.1)

  handle_item-Counts :
      (item : TimerItem M) (n : TimerRound) (w : SagaStores S C M)
      → IsKeyed w.instances
      → Counts n 1 (handle_item opts handlers now item n w)
  unfolding handle_item
  handle_item-Counts item n w v = elim (Option-cases (lookup item.saga_name handlers)) [
    | inl e ↦
        let done : handle_item opts handlers now item n w
            ≡ (ok (record n { orphaned = suc n.orphaned }), settle_orphan opts item w) =
          rw (e, handle_item) in
        subst (Counts n 1) (sym done) (orphan_counted item n w v)
    | inr (saga, e) ↦
        let s = deliver opts handlers now saga item w in
        let done : handle_item opts handlers now item n w
            ≡ elim s.0 [ ok a ↦ (ok (count_delivery a n), s.1) | err x ↦ (err x, s.1) ] =
          rw (e, handle_item) in
        subst (Counts n 1) (sym done)
          (counted saga item n w s.0 s.1 v (deliver-Delivers opts handlers now saga item w v))
  ]

  handle_items-Counts :
      (items : List (TimerItem M)) (n : TimerRound) (w : SagaStores S C M)
      → IsKeyed w.instances
      → Counts n (length items) (handle_items opts handlers now items n w)
  unfolding handle_items Counts
  handle_items-Counts [] n w v = (omega arith, v)
  handle_items-Counts (item ∷ items) n w v =
      let s = handle_item opts handlers now item n w in
      continued items n s.0 s.1 (handle_item-Counts item n w v)
        (λ m v'. handle_items-Counts items m s.1 v')

  -- What the report of a round says about the round.
  abbrev pub Accounts : Result TimerSchedulerRoundResult × SagaStores S C M → Type 0
  Accounts (ok result, w) =
      (result.claimed ≡ result.fired + result.released + result.orphaned)
      × (result.claimed ≤ opts.batch_size)
      × IsKeyed w.instances
  Accounts (err e, w) = IsKeyed w.instances

  reported :
      (k : ℕ) (r : Result TimerRound) (w' : SagaStores S C M)
      → Counts (record { fired = 0; released = 0; orphaned = 0 }) k (r, w')
      → k ≤ opts.batch_size
      → Accounts (elim r [
        | ok n ↦ (
          ok (record {
            claimed = k;
            fired = n.fired;
            released = n.released;
            orphaned = n.orphaned;
          }),
          w',
        )
        | err e ↦ (err e, w')
      ])
  unfolding Counts
  reported k (err e) w' h le = h
  reported k (ok n) w' h le = (omega (arith, h.0), le, h.1)

  -- On a keyed store, a round that ends without an error accounts for every timer that it claimed,
  -- at most as many as the batch size; and however a round ends, the store is keyed.
  pub run_once-Accounts :
      (w : SagaStores S C M) → IsKeyed w.instances → Accounts (run_once opts handlers now w)
  unfolding run_once
  run_once-Accounts w v =
      let (timers, items) = claim_due now opts.batch_size w.timers in
      let start : TimerRound = record { fired = 0; released = 0; orphaned = 0 } in
      let s = handle_items opts handlers now items start (record w { timers = timers }) in
      reported (length items) s.0 s.1
        (handle_items-Counts items start (record w { timers = timers }) v)
        ((claim_due_lem now opts.batch_size w.timers).2)
