-- ===== src/Sagas.antt =====
-- packages/sagas: process managers, their stores, the runner, and the two workers.
pub mod Saga
pub mod StateStore
pub mod CommandQueue
pub mod TimerStore
pub mod Runner
pub mod Dispatcher
pub mod Scheduler
mod Tests
