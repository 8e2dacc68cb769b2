-- ===== src/Sagas/Runner/Redelivery.antt =====
-- A delivery that comes again: at-least-once delivery has the effect of exactly one.
use eventfabric.Base.{
  ℕ, ◌≡◌, subst, inl, inr, Str, true, none, some, arith, Bool-cases, Option-cases, lookup,
  str_eq_refl, ok,
}
use eventfabric.Core.Types.{EventEnvelope}
use eventfabric.Sagas.Saga.{Saga, SagaInstance, SagaReaction}
use eventfabric.Sagas.StateStore.{key, load}
use eventfabric.Sagas.StateStore.Laws.{IsKeyed}
use eventfabric.Sagas.Runner.{
  event, applied, skipped, SkipReason, already_applied, instance_terminal, no_correlation,
  SagaStores, resolve, resolve_event, check_event, is_active, has_seen, apply_saga_transition,
}
use eventfabric.Sagas.Runner.Resolve.{target_key}
use eventfabric.Sagas.Runner.Transition.{Post, apply_saga_transition-Post}

module _ {S P C M : Type 0} (saga : Saga S P C M) (tenant_id : Str) where
  -- An event at or before the last applied position of its instance is skipped.
  seen_skips :
      (now : ℕ) (envelope : EventEnvelope P) (id : Str) (i : SagaInstance S) (w : SagaStores S C M)
      → saga.correlate envelope ≡ some id
      → lookup (key saga.name id tenant_id) w.instances ≡ some i
      → has_seen i.last_event_pos envelope.global_position ≡ true
      → (reason : SkipReason) × (apply_saga_transition saga tenant_id now (event envelope) w
          ≡ (ok (skipped reason), w))
  unfolding apply_saga_transition resolve resolve_event check_event load
  seen_skips now envelope id i w c e h = elim (Bool-cases (is_active i.status)) [
    | inl live ↦ (already_applied, ground arith)
    | inr ended ↦ (instance_terminal, ground arith)
  ]

  uncorrelated_skips :
      (now : ℕ) (envelope : EventEnvelope P) (w : SagaStores S C M)
      → saga.correlate envelope ≡ none
      → apply_saga_transition saga tenant_id now (event envelope) w
        ≡ (ok (skipped no_correlation), w)
  unfolding apply_saga_transition resolve resolve_event
  uncorrelated_skips now envelope w c = ground arith

  -- Over a keyed store, an event that was applied is skipped when it is delivered again to the
  -- stores as the first delivery left them, at any time, and the second delivery changes nothing.
  pub applied-skipped :
      (now later : ℕ) (envelope : EventEnvelope P) (w w' : SagaStores S C M) (i : SagaInstance S)
      (reaction : SagaReaction S C M)
      → IsKeyed w.instances
      → apply_saga_transition saga tenant_id now (event envelope) w ≡ (ok (applied i reaction), w')
      → (reason : SkipReason) × (apply_saga_transition saga tenant_id later (event envelope) w'
          ≡ (ok (skipped reason), w'))
  applied-skipped now later envelope w w' i reaction v h =
      let p =
        subst (Post saga tenant_id now (event envelope) w) h
          (apply_saga_transition-Post saga tenant_id now (event envelope) w v) in
      elim (Option-cases (saga.correlate envelope)) [
        | inl c ↦ cc (h, uncorrelated_skips now envelope w c)
        | inr (id, c) ↦
            let here : target_key saga tenant_id now (event envelope) ≡ key saga.name id tenant_id =
              rw c in
            let stored : lookup (key saga.name id tenant_id) w'.instances ≡ some i = ground (
              arith,
              p.2 (key saga.name id tenant_id),
              here,
              str_eq_refl (key saga.name id tenant_id),
            ) in
            let seen : has_seen i.last_event_pos envelope.global_position ≡ true =
              rw p.4 (ground arith) in
            seen_skips later envelope id i w' c stored seen
      ]
