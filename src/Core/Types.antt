-- ===== src/Core/Types.antt =====
-- packages/core/src/types.ts: events and their envelopes. An event's own fields are the type
-- parameter `P`; times are milliseconds, and global positions (bigint) are natural numbers.
use eventfabric.Base.{ℕ, Str, Option}

-- `AnyEvent`: the name and the schema version, with the payload's other fields.
pub record Event (P : Type 0) : Type 0 where
  pub type : Str
  pub version : ℕ
  pub body : P

pub record Dismissal : Type 0 where
  pub at : Str
  pub reason : Option Str
  pub by : Option Str

pub record EventEnvelope (P : Type 0) : Type 0 where
  pub event_id : Str
  pub tenant_id : Str
  pub aggregate_name : Str
  pub aggregate_id : Str
  pub aggregate_version : ℕ
  pub global_position : ℕ
  pub occurred_at : ℕ
  pub payload : Event P
  pub dismissed : Option Dismissal
  pub correlation_id : Option Str
  pub causation_id : Option Str
