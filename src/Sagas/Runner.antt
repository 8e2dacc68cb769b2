-- ===== src/Sagas/Runner.antt =====
-- packages/sagas/src/saga-runner.ts over the in-memory stores. Observer hooks cannot change a
-- transition and are left out; the clock stands still while one delivery is applied.
pub mod Effects
pub mod Resolve
pub mod Transition
pub mod Redelivery
use eventfabric.Base.{
  ℕ, suc, ◌+◌, Str, Bool, true, false, ◌&&◌, not, Option, none, some, List, [], ◌∷◌, ltb, leb,
  if◌then◌else◌, or_else, Action, Result, ok, err, ◌>>=◌, ◌>>◌, pure, gets, lift, modify,
}
use eventfabric.Core.Types.{EventEnvelope}
use eventfabric.Mediator.Command.{Command}
use eventfabric.Sagas.Saga.{
  Saga, SagaInstance, SagaReaction, ReactContext, TimerMessage, ScheduledMessage, FireAt,
  SagaInstanceStatus,
}
use eventfabric.Sagas.StateStore.{StateStore, load, insert_instance, update}
use eventfabric.Sagas.CommandQueue.{CommandQueue, enqueue}
use eventfabric.Sagas.TimerStore.{TimerStore, TimerOwner, cancel, schedule}

pub data SagaDelivery (P M : Type 0) : Type 0 where
  event : EventEnvelope P → SagaDelivery P M
  timer : Str → Str → TimerMessage M → SagaDelivery P M

pub data SkipReason : Type 0 where
  no_correlation no_instance already_applied instance_terminal : SkipReason

pub data SagaTransitionOutcome (S C M : Type 0) : Type 0 where
  applied : SagaInstance S → SagaReaction S C M → SagaTransitionOutcome S C M
  skipped : SkipReason → SagaTransitionOutcome S C M
  concurrent : SagaInstance S → SagaTransitionOutcome S C M

-- `SagaTransitionStores`: what one transaction writes.
pub record SagaStores (S C M : Type 0) : Type 0 where
  pub instances : StateStore S
  pub queue : CommandQueue C
  pub timers : TimerStore M

-- The instance a delivery is for, and whether it was created for it; or an early return.
pub data Target (S : Type 0) : Type 0 where
  stop : SkipReason → Target S
  go_on : Str → SagaInstance S → Bool → Target S

abbrev pub is_active : SagaInstanceStatus → Bool
is_active SagaInstanceStatus.active = true
is_active _ = false

-- `instance.lastEventPos !== null && globalPosition <= instance.lastEventPos`
abbrev pub has_seen : Option ℕ → ℕ → Bool
has_seen none position = false
has_seen (some last) position = leb position last

abbrev pub status_after : Bool → SagaInstanceStatus → SagaInstanceStatus
status_after true status = SagaInstanceStatus.completed
status_after false status = status

abbrev pub fire_time : ℕ → FireAt → ℕ
fire_time now (FireAt.at_time t) = t
fire_time now (FireAt.after_ms d) = now + d

module _ {S C M : Type 0} where
  abbrev pub on_instances : {A : Type 0} → Action (StateStore S) A → Action (SagaStores S C M) A
  on_instances m w = let (r, store) = m w.instances in (r, record w { instances = store })

module _ {S P C M : Type 0} (saga : Saga S P C M) (tenant_id : Str) (now : ℕ) where
  abbrev pub fresh_instance : Str → EventEnvelope P → SagaInstance S
  fresh_instance instance_id envelope = record {
    saga_name = saga.name;
    instance_id = instance_id;
    tenant_id = tenant_id;
    state = saga.initial_state envelope;
    state_version = 0;
    status = SagaInstanceStatus.active;
    schema_version = saga.version;
    last_event_pos = none;
    created_at = now;
    updated_at = now;
  }

  -- The terminal check and the idempotency check on an event's instance.
  unfoldable pub check_event : EventEnvelope P → Str → SagaInstance S → Bool → Target S
  check_event envelope instance_id instance fresh =
      if not (is_active instance.status)
      then stop instance_terminal
      else if has_seen instance.last_event_pos envelope.global_position
      then stop already_applied
      else go_on instance_id instance fresh

  -- `correlate`, `load`, and the seeding of a new instance.
  unfoldable pub resolve_event : EventEnvelope P → Action (SagaStores S C M) (Target S)
  unfolding check_event
  resolve_event envelope = elim (saga.correlate envelope) [
    | none ↦ pure (stop no_correlation)
    | some instance_id ↦ on_instances (load saga.name instance_id tenant_id) >>= λ found.
        elim found [
          | some instance ↦ pure (check_event envelope instance_id instance false)
          | none ↦
              if saga.starts_new_instance envelope
              then on_instances (insert_instance (fresh_instance instance_id envelope))
                >> pure
                    (check_event envelope instance_id (fresh_instance instance_id envelope) true)
              else pure (stop no_instance)
        ]
  ]

  -- A timer names its instance and tenant; it never creates an instance.
  unfoldable pub resolve_timer : Str → Str → Action (SagaStores S C M) (Target S)
  resolve_timer instance_id tenant = do
    found ← on_instances (load saga.name instance_id tenant)
    elim found [
      | none ↦ pure (stop no_instance)
      | some instance ↦ pure (
          if not (is_active instance.status)
          then stop instance_terminal
          else go_on instance_id instance false)
    ]

  unfoldable pub resolve : SagaDelivery P M → Action (SagaStores S C M) (Target S)
  unfolding resolve_event resolve_timer
  resolve (event envelope) = resolve_event envelope
  resolve (timer instance_id tenant message) = resolve_timer instance_id tenant

  -- Schema upcasting of an instance that an older saga version stored.
  unfoldable pub upcast : Bool → SagaInstance S → SagaInstance S
  upcast fresh instance = elim saga.upcaster [
    | none ↦ instance
    | some upcaster ↦
        if not fresh && ltb instance.schema_version saga.version
        then record instance {
          state = upcaster instance.state instance.schema_version;
          schema_version = saga.version;
        }
        else instance
  ]

  abbrev react_context : Option Str → Str → ReactContext
  react_context correlation_id instance_id = record {
    correlation_id = or_else correlation_id instance_id;
    instance_id = instance_id;
    tenant_id = tenant_id;
  }

  unfoldable pub react : SagaDelivery P M → Str → SagaInstance S → Result (SagaReaction S C M)
  react (event envelope) instance_id instance =
      saga.react_to_event instance.state envelope
        (react_context envelope.correlation_id instance_id)
  react (timer _ _ message) instance_id instance = elim saga.react_to_timer [
    | some react_to_timer ↦ react_to_timer instance.state message (react_context none instance_id)
    | none ↦ ok (record {
      new_state = instance.state;
      commands = none;
      schedule = none;
      cancel = none;
      end = false;
    })
  ]

  abbrev pub causation_event_id : SagaDelivery P M → Option Str
  causation_event_id (event envelope) = some envelope.event_id
  causation_event_id (timer _ _ _) = none

  unfoldable pub enqueue_all : Str → Option Str → List (Command C) → CommandQueue C → CommandQueue C
  enqueue_all instance_id cause [] q = q
  enqueue_all instance_id cause (command ∷ commands) q =
      enqueue_all instance_id cause commands
        (enqueue tenant_id saga.name instance_id command cause now q)

  abbrev pub owner : Str → TimerOwner
  owner instance_id = record {
    tenant_id = tenant_id;
    saga_name = saga.name;
    instance_id = instance_id;
  }

  unfoldable pub schedule_all : Str → List (ScheduledMessage M) → TimerStore M → TimerStore M
  schedule_all instance_id [] timers = timers
  schedule_all instance_id (sched ∷ schedules) timers =
      schedule_all instance_id schedules
        (schedule (owner instance_id) sched.id (fire_time now sched.fire_at) sched.message timers)

  -- No call is made for an empty list.
  abbrev pub cancel_listed : Str → List Str → TimerStore M → TimerStore M
  cancel_listed instance_id [] timers = timers
  cancel_listed instance_id (id ∷ ids) timers = (cancel (owner instance_id) (id ∷ ids) timers).0

  -- Commands, then cancellations, then new timers.
  unfoldable pub persist_effects :
      SagaDelivery P M → Str → SagaReaction S C M → SagaStores S C M → SagaStores S C M
  unfolding enqueue_all schedule_all
  persist_effects delivery instance_id reaction w = record w {
    queue =
        enqueue_all instance_id (causation_event_id delivery) (or_else reaction.commands [])
          w.queue;
    timers =
        schedule_all instance_id (or_else reaction.schedule [])
          (cancel_listed instance_id (or_else reaction.cancel []) w.timers);
  }

  abbrev pub position_after : SagaDelivery P M → Option ℕ → Option ℕ
  position_after (event envelope) last = some envelope.global_position
  position_after (timer _ _ _) last = last

  unfoldable pub updated_instance :
      SagaDelivery P M → SagaReaction S C M → SagaInstance S → SagaInstance S
  updated_instance delivery reaction instance = record instance {
    state = reaction.new_state;
    state_version = suc instance.state_version;
    status = status_after reaction.end instance.status;
    last_event_pos = position_after delivery instance.last_event_pos;
    updated_at = now;
  }

  -- The reaction, its effects, and the optimistic update of the instance.
  unfoldable pub finish :
      SagaDelivery P M
      → Str
      → SagaInstance S
      → Action (SagaStores S C M) (SagaTransitionOutcome S C M)
  unfolding react persist_effects updated_instance
  finish delivery instance_id instance = do
    reaction ← lift (react delivery instance_id instance)
    modify (persist_effects delivery instance_id reaction)
    stored ←
        on_instances (update (updated_instance delivery reaction instance) instance.state_version)
    pure (
        if stored
        then applied (updated_instance delivery reaction instance) reaction
        else concurrent instance)

  unfoldable pub apply_saga_transition :
      SagaDelivery P M → Action (SagaStores S C M) (SagaTransitionOutcome S C M)
  unfolding resolve upcast finish
  apply_saga_transition delivery = do
    target ← resolve delivery
    elim target [
      | stop reason ↦ pure (skipped reason)
      | go_on instance_id instance fresh ↦ finish delivery instance_id (upcast fresh instance)
    ]
