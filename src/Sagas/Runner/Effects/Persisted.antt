-- ===== src/Sagas/Runner/Effects/Persisted.antt =====
-- `persistEffects` of packages/sagas/src/saga-runner.ts writes the effects of a reaction.
use eventfabric.Base.{
  ℕ, ◌≡◌, sym, ap, ◌∙◌, Str, ◌&&◌, Option, none, some, List, [], ◌∷◌, ◌++◌, or_else, arith,
  if◌then◌else◌, str_eq, str_eq→eq, includes, Bool-cases, inl, inr,
}
use eventfabric.Mediator.Command.{Command}
use eventfabric.Sagas.Saga.{Saga, SagaReaction, ScheduledMessage}
use eventfabric.Sagas.CommandQueue.{CommandQueue, enqueue}
use eventfabric.Sagas.TimerStore.{TimerStore, TimerOwner, schedule}
use eventfabric.Sagas.Runner.{
  SagaDelivery, SagaStores, enqueue_all, schedule_all, cancel_listed, fire_time, owner,
  persist_effects, causation_event_id,
}
use eventfabric.Sagas.Runner.Effects.{
  queued_rows, is_owner, pending_at, latest, with_first, append_one, append_none, with_first_twice,
  is_owner→eq, schedule-pending_self, schedule-pending_other, cancel-pending,
}

module _ {S P C M : Type 0} (saga : Saga S P C M) (tenant_id : Str) (now : ℕ) where
  pub enqueue_all-queued_rows :
      (id : Str) (cause : Option Str) (commands : List (Command C)) (q : CommandQueue C)
      → (enqueue_all saga tenant_id now id cause commands q).rows
        ≡ q.rows ++ queued_rows tenant_id saga.name id cause now q.next_id commands
  unfolding enqueue_all enqueue queued_rows
  enqueue_all-queued_rows id cause [] q = sym (append_none q.rows)
  enqueue_all-queued_rows id cause (c ∷ cs) q =
      enqueue_all-queued_rows id cause cs _ ∙ append_one q.rows _ _

  schedule_all-pending :
      (id : Str) (o : TimerOwner) (t : Str) (ss : List (ScheduledMessage M)) (rows : TimerStore M)
      → pending_at o t (schedule_all saga tenant_id now id ss rows)
        ≡ with_first
            (if is_owner (owner saga tenant_id now id) o then latest now t ss else none)
            (pending_at o t rows)
  unfolding schedule_all latest with_first
  schedule_all-pending id o t [] rows = ground arith
  schedule_all-pending id o t (s ∷ ss) rows =
      let own = owner saga tenant_id now id in
      let at = fire_time now s.fire_at in
      let rest = schedule_all-pending id o t ss (schedule own s.id at s.message rows) in
      elim (Bool-cases (is_owner own o && str_eq s.id t)) [
        | inl same ↦
            let here : pending_at o t (schedule own s.id at s.message rows)
                ≡ with_first (some (at, s.message)) (pending_at o t rows) =
              ground (
                arith,
                is_owner→eq own o,
                str_eq→eq s.id t,
                schedule-pending_self own s.id at s.message rows,
              ) in
            ground (
              arith,
              rest,
              here,
              with_first_twice (latest now t ss) (at, s.message) (pending_at o t rows),
            )
        | inr other ↦
            let here = schedule-pending_other own o s.id t at s.message rows other in
            ground (arith, rest, here)
      ]

  cancel_listed-pending :
      (id : Str) (o : TimerOwner) (t : Str) (ids : List Str) (rows : TimerStore M)
      → pending_at o t (cancel_listed saga tenant_id now id ids rows) ≡ (
          if is_owner (owner saga tenant_id now id) o && includes ids t
          then []
          else pending_at o t rows)
  unfolding includes
  cancel_listed-pending id o t [] rows = ground arith
  cancel_listed-pending id o t (i ∷ ids) rows =
      cancel-pending (owner saga tenant_id now id) o (i ∷ ids) t rows

  -- What a reaction writes for an instance: its commands are the last rows of the queue; of a timer
  -- that it cancels no pending row is left; and what it schedules last under an id takes the place
  -- of the first pending row that is left under it, or is a new one.
  abbrev pub HasEffects :
      SagaDelivery P M → Str → SagaReaction S C M → SagaStores S C M → SagaStores S C M → Type 0
  HasEffects d id reaction w w' =
      (w'.queue.rows
        ≡ w.queue.rows
          ++ queued_rows tenant_id saga.name id (causation_event_id saga tenant_id now d) now
              w.queue.next_id (or_else reaction.commands []))
      × ((o : TimerOwner) (t : Str)
          → pending_at o t w'.timers
            ≡ with_first
                (if is_owner (owner saga tenant_id now id) o
                  then latest now t (or_else reaction.schedule [])
                  else none)
                (if is_owner (owner saga tenant_id now id) o
                    && includes (or_else reaction.cancel []) t
                  then []
                  else pending_at o t w.timers))

  pub persist_effects-HasEffects :
      (d : SagaDelivery P M) (id : Str) (reaction : SagaReaction S C M) (w : SagaStores S C M)
      → HasEffects d id reaction w (persist_effects saga tenant_id now d id reaction w)
  unfolding persist_effects
  persist_effects-HasEffects d id reaction w = (
    enqueue_all-queued_rows id (causation_event_id saga tenant_id now d)
        (or_else reaction.commands []) w.queue,
    λ o t.
        schedule_all-pending id o t (or_else reaction.schedule []) _
        ∙ ap
            (with_first (
              if is_owner (owner saga tenant_id now id) o
              then latest now t (or_else reaction.schedule [])
              else none))
            (cancel_listed-pending id o t (or_else reaction.cancel []) w.timers),
  )
