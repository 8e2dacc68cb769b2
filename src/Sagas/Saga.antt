-- ===== src/Sagas/Saga.antt =====
-- packages/sagas/src/saga.ts: a saga is a reducer over events and timers. `S` is its state, `P`
-- the body of events, `C` the payload of commands and `M` the payload of timers.
use eventfabric.Base.{ℕ, Str, Bool, Option, List, Result}
use eventfabric.Core.Types.{EventEnvelope}
use eventfabric.Mediator.Command.{Command}

-- `SagaReactContext`
pub record ReactContext : Type 0 where
  pub correlation_id : Str
  pub instance_id : Str
  pub tenant_id : Str

pub record TimerMessage (M : Type 0) : Type 0 where
  pub id : Str
  pub payload : M

-- `Date | { afterMs: number }`
pub data FireAt : Type 0 where
  at_time : ℕ → FireAt
  after_ms : ℕ → FireAt

pub record ScheduledMessage (M : Type 0) : Type 0 where
  pub id : Str
  pub fire_at : FireAt
  pub message : TimerMessage M

pub record SagaReaction (S C M : Type 0) : Type 0 where
  pub new_state : S
  pub commands : Option (List (Command C))
  pub schedule : Option (List (ScheduledMessage M))
  pub cancel : Option (List Str)
  pub end : Bool

-- The reducers may throw; they have no other effect.
pub record Saga (S P C M : Type 0) : Type 0 where
  pub name : Str
  pub version : ℕ
  pub upcaster : Option (S → ℕ → S)
  pub correlate : EventEnvelope P → Option Str
  pub starts_new_instance : EventEnvelope P → Bool
  pub initial_state : EventEnvelope P → S
  pub react_to_event : S → EventEnvelope P → ReactContext → Result (SagaReaction S C M)
  pub react_to_timer : Option (S → TimerMessage M → ReactContext → Result (SagaReaction S C M))

pub data SagaInstanceStatus : Type 0 where
  active completed failed : SagaInstanceStatus

pub record SagaInstance (S : Type 0) : Type 0 where
  pub saga_name : Str
  pub instance_id : Str
  pub tenant_id : Str
  pub state : S
  pub state_version : ℕ
  pub status : SagaInstanceStatus
  pub schema_version : ℕ
  pub last_event_pos : Option ℕ
  pub created_at : ℕ
  pub updated_at : ℕ
