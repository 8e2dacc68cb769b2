-- ===== src/SagasPostgres.antt =====
-- packages/sagas-postgres: the stores of the sagas as tables.
pub mod TimerStore
pub mod CommandQueue
pub mod StateStore
mod Tests
