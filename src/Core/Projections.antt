-- ===== src/Core/Projections.antt =====
-- Projections over the event log: packages/core/src/projections, with the parts of
-- packages/postgres that they stand on.
pub mod TopicFilter
pub mod Checkpoints
pub mod EventLog
pub mod CatchUp
pub mod Outbox
pub mod Async
mod Tests
