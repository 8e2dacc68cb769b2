-- ===== src/Sagas/Runner/Transition.antt =====
-- What one transition does to the stores, on every path.
use eventfabric.Base.{
  ℕ, suc, ◌≡◌, refl, ap, sym, subst, ◌∙◌, Str, Bool, some, arith, if◌then◌else◌, str_eq, ==_iff,
  lookup, insert, lookup-insert, Result, ok, err,
}
use eventfabric.Sagas.Saga.{Saga, SagaInstance, SagaReaction, completed}
use eventfabric.Sagas.StateStore.{key_of, update}
use eventfabric.Sagas.StateStore.Laws.{IsKeyed, insert-IsKeyed}
use eventfabric.Sagas.Runner.{
  SagaDelivery, SagaTransitionOutcome, applied, skipped, concurrent, SagaStores, Target, stop,
  go_on, resolve, upcast, react, persist_effects, updated_instance, finish, apply_saga_transition,
  position_after,
}
use eventfabric.Sagas.Runner.Effects.Persisted.{HasEffects, persist_effects-HasEffects}
use eventfabric.Sagas.Runner.Resolve.{
  stored_version, stored_position, target_id, target_key, Found, Seen, Resolves, resolve-Resolves,
}

module _ {S P C M : Type 0} (saga : Saga S P C M) (tenant_id : Str) (now : ℕ) where
  -- The reducer answered for the instance that the delivery found, brought to the saga's version,
  -- and the instance that is written has the state and the end of this answer.
  abbrev pub Reacted :
      SagaDelivery P M → SagaStores S C M → SagaInstance S → SagaReaction S C M → Type 0
  Reacted d w instance reaction =
      (i : SagaInstance S) × (fresh : Bool) × Seen saga tenant_id now d w i fresh
      × (react saga tenant_id now d (target_id saga tenant_id now d)
            (upcast saga tenant_id now fresh i)
          ≡ ok reaction)
      × (instance.state ≡ reaction.new_state)
      × (instance.status ≡ (if reaction.end then completed else i.status))
      × (instance.updated_at ≡ now)

  abbrev pub Post :
      SagaDelivery P M
      → SagaStores S C M
      → Result (SagaTransitionOutcome S C M) × SagaStores S C M
      → Type 0
  Post d w (err e, w') = IsKeyed w'.instances × (w'.queue ≡ w.queue) × (w'.timers ≡ w.timers)
  Post d w (ok (skipped reason), w') = w' ≡ w
  Post d w (ok (concurrent instance), w') = ⊥
  Post d w (ok (applied instance reaction), w') =
      IsKeyed w'.instances
      × (key_of instance ≡ target_key saga tenant_id now d)
      × ((k : Str)
          → lookup k w'.instances ≡ (
              if str_eq (target_key saga tenant_id now d) k
              then some instance
              else lookup k w.instances))
      × (instance.state_version
          ≡ suc (stored_version (target_key saga tenant_id now d) w.instances))
      × (instance.last_event_pos
          ≡ position_after saga tenant_id now d
              (stored_position (target_key saga tenant_id now d) w.instances))
      × Reacted d w instance reaction
      × HasEffects saga tenant_id now d (target_id saga tenant_id now d) reaction w w'

  -- What is left of a transition once the reducer has answered and the update cannot miss.
  abbrev settled :
      SagaDelivery P M
      → SagaInstance S
      → SagaStores S C M
      → Result (SagaReaction S C M)
      → Result (SagaTransitionOutcome S C M) × SagaStores S C M
  settled d i w (err e) = (err e, w)
  settled d i w (ok reaction) = (
    ok (applied (updated_instance saga tenant_id now d reaction i) reaction),
    record (persist_effects saga tenant_id now d (target_id saga tenant_id now d) reaction w) {
      instances = insert (key_of i) (updated_instance saga tenant_id now d reaction i) w.instances;
    },
  )

  -- The tail of a transition, for an instance that is stored at the version it was read at.
  finish_lem :
      (d : SagaDelivery P M) (i stored : SagaInstance S) (w : SagaStores S C M)
      → lookup (key_of i) w.instances ≡ some stored
      → stored.state_version ≡ i.state_version
      → finish saga tenant_id now d (target_id saga tenant_id now d) i w
        ≡ settled d i w (react saga tenant_id now d (target_id saga tenant_id now d) i)
  unfolding finish update
  finish_lem d i stored w h v = ground (arith, ==_iff stored.state_version i.state_version)

  upcast_keeps :
      (fresh : Bool) (i : SagaInstance S)
      → (key_of (upcast saga tenant_id now fresh i) ≡ key_of i)
        × ((upcast saga tenant_id now fresh i).state_version ≡ i.state_version)
        × ((upcast saga tenant_id now fresh i).last_event_pos ≡ i.last_event_pos)
        × ((upcast saga tenant_id now fresh i).status ≡ i.status)
  unfolding upcast
  upcast_keeps fresh i = ground arith

  -- The continuation after `resolve`.
  after_resolve :
      SagaDelivery P M
      → Result (Target S) × SagaStores S C M
      → Result (SagaTransitionOutcome S C M) × SagaStores S C M
  after_resolve d (err e, w) = (err e, w)
  after_resolve d (ok (stop reason), w) = (ok (skipped reason), w)
  after_resolve d (ok (go_on id i fresh), w) =
      finish saga tenant_id now d id (upcast saga tenant_id now fresh i) w

  apply-after_resolve :
      (d : SagaDelivery P M) (w : SagaStores S C M)
      → apply_saga_transition saga tenant_id now d w
        ≡ after_resolve d (resolve saga tenant_id now d w)
  unfolding apply_saga_transition after_resolve
  apply-after_resolve d w = ground arith

  updated_facts :
      (d : SagaDelivery P M) (reaction : SagaReaction S C M) (i : SagaInstance S)
      → (key_of (updated_instance saga tenant_id now d reaction i) ≡ key_of i)
        × ((updated_instance saga tenant_id now d reaction i).state_version ≡ suc i.state_version)
        × ((updated_instance saga tenant_id now d reaction i).last_event_pos
            ≡ position_after saga tenant_id now d i.last_event_pos)
        × ((updated_instance saga tenant_id now d reaction i).state ≡ reaction.new_state)
        × ((updated_instance saga tenant_id now d reaction i).status
            ≡ (if reaction.end then completed else i.status))
        × ((updated_instance saga tenant_id now d reaction i).updated_at ≡ now)
  unfolding updated_instance
  updated_facts d reaction i = (refl, refl, refl, refl, ground arith, refl)

  -- The effects do not look at the instances.
  effects_of_same :
      (d : SagaDelivery P M) (reaction : SagaReaction S C M) (id : Str) (w w' : SagaStores S C M)
      → w'.queue ≡ w.queue
      → w'.timers ≡ w.timers
      → HasEffects saga tenant_id now d id reaction w
          (persist_effects saga tenant_id now d id reaction w')
  effects_of_same d reaction id w w' q t =
      let h = persist_effects-HasEffects saga tenant_id now d id reaction w' in
      (rw (← q) h.0, rw (← t) h.1)

  twice_written :
      (k j t : Str) (new i : SagaInstance S) (w w' : SagaStores S C M)
      → j ≡ t
      → lookup k w'.instances ≡ (if str_eq t k then some i else lookup k w.instances)
      → lookup k (insert j new w'.instances)
        ≡ (if str_eq t k then some new else lookup k w.instances)
  twice_written k j t new i w w' e h = ground (arith, lookup-insert j k new w'.instances)

  settled-Post :
      (d : SagaDelivery P M) (i u : SagaInstance S) (w w' : SagaStores S C M)
      → Found saga tenant_id now d w w' i
      → key_of u ≡ key_of i
      → u.state_version ≡ i.state_version
      → u.last_event_pos ≡ i.last_event_pos
      → (fresh : Bool) → Seen saga tenant_id now d w i fresh
      → u ≡ upcast saga tenant_id now fresh i
      → (r : Result (SagaReaction S C M))
      → react saga tenant_id now d (target_id saga tenant_id now d) u ≡ r
      → Post d w (settled d u w' r)
  settled-Post d i u w w' f uk uv up fresh seen same_u (err x) answer =
      (f.keyed, f.same_queue, f.same_timers)
  settled-Post d i u w w' f uk uv up fresh seen same_u (ok reaction) answer =
      let new = updated_instance saga tenant_id now d reaction u in
      let facts = updated_facts d reaction u in
      let same =
        effects_of_same d reaction (target_id saga tenant_id now d) w w' f.same_queue
          f.same_timers in
      let own : key_of u ≡ target_key saga tenant_id now d = uk ∙ f.own_key in
      (
        subst (λ k. IsKeyed (insert k new w'.instances)) facts.0
            (insert-IsKeyed new w'.instances f.keyed),
        facts.0 ∙ own,
        λ k.
            twice_written k (key_of u) (target_key saga tenant_id now d) new i w w' own
              (f.others k),
        omega (arith, facts.1, uv, f.version),
        facts.2 ∙ ap (position_after saga tenant_id now d) (up ∙ f.position),
        (
          i,
          fresh,
          seen,
          rw (← same_u) answer,
          facts.3,
          facts.4
              ∙ ap (λ x. if reaction.end then completed else x)
                  (ap (λ x. x.status) same_u ∙ (upcast_keeps fresh i).3),
          facts.5,
        ),
        same,
      )

  finish-Post :
      (d : SagaDelivery P M) (i u : SagaInstance S) (w w' : SagaStores S C M)
      → Found saga tenant_id now d w w' i
      → key_of u ≡ key_of i
      → u.state_version ≡ i.state_version
      → u.last_event_pos ≡ i.last_event_pos
      → (fresh : Bool) → Seen saga tenant_id now d w i fresh
      → u ≡ upcast saga tenant_id now fresh i
      → Post d w (finish saga tenant_id now d (target_id saga tenant_id now d) u w')
  finish-Post d i u w w' f uk uv up fresh seen same_u =
      let at_key : lookup (key_of u) w'.instances ≡ some i = rw (uk, f.own_key) f.stored in
      subst (Post d w) (sym (finish_lem d u i w' at_key (sym uv))) (
        settled-Post d i u w w' f uk uv up fresh seen same_u
          (react saga tenant_id now d (target_id saga tenant_id now d) u) refl)

  after_resolve-Post :
      (d : SagaDelivery P M) (w : SagaStores S C M) (r : Result (Target S)) (w' : SagaStores S C M)
      → Resolves saga tenant_id now d w (r, w')
      → Post d w (after_resolve d (r, w'))
  unfolding after_resolve
  after_resolve-Post d w (err e) w' h = absurd h
  after_resolve-Post d w (ok (stop reason)) w' h = h
  after_resolve-Post d w (ok (go_on id i fresh)) w' (e, f, seen) =
      let keeps = upcast_keeps fresh i in
      let u = upcast saga tenant_id now fresh i in
      subst (λ t. Post d w (finish saga tenant_id now d t u w')) (sym e)
        (finish-Post d i u w w' f keeps.0 keeps.1 keeps.2 fresh seen refl)

  -- Applied to a keyed store, a delivery is skipped and changes nothing, or it is applied, or the
  -- reducer threw and no command or timer was written; it is never refused as concurrent, and the
  -- store stays keyed. Applied, it writes exactly the addressed instance, one version up, at the
  -- position of the event, with the state and the end that the reducer answers for the stored
  -- instance or the one that the event starts; the reaction's commands are new pending rows at the
  -- end of the queue, in their order; a timer that it cancels has no pending row any more, one that
  -- it schedules then has the last date and message given in its first pending row, and the pending
  -- rows of every other timer are the old ones.
  pub apply_saga_transition-Post :
      (d : SagaDelivery P M) (w : SagaStores S C M)
      → IsKeyed w.instances
      → Post d w (apply_saga_transition saga tenant_id now d w)
  apply_saga_transition-Post d w v =
      let (r, w') = resolve saga tenant_id now d w in
      subst (Post d w) (sym (apply-after_resolve d w))
        (after_resolve-Post d w r w' (resolve-Resolves saga tenant_id now d w v))
