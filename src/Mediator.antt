-- ===== src/Mediator.antt =====
-- packages/mediator: commands, idempotency and the command bus.
pub mod Command
pub mod Idempotency
pub mod Bus
mod Tests
