-- ===== src/Postgres.antt =====
-- packages/postgres: the event store, the snapshots and the session, and the repository of
-- packages/core.
pub mod DeadLetters
pub mod EventStore
pub mod Snapshots
pub mod Repository
pub mod Session
pub mod Anchors
mod Tests
