-- ===== src/MediatorPostgres.antt =====
-- packages/mediator-postgres.
pub mod IdempotencyStore
mod Tests
