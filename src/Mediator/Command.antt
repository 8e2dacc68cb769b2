-- ===== src/Mediator/Command.antt =====
-- packages/mediator/src/command.ts. A command's payload is the type parameter `P`.
use eventfabric.Base.{ℕ, Str, Option}

pub record CommandMetadata : Type 0 where
  pub command_id : Str
  pub idempotency_key : Str
  pub correlation_id : Option Str
  pub causation_id : Option Str
  pub issued_at : Str
  pub tenant_id : Option Str
  pub principal_id : Option Str

pub record Command (P : Type 0) : Type 0 where
  pub type : Str
  pub version : ℕ
  pub payload : P
  pub metadata : CommandMetadata
