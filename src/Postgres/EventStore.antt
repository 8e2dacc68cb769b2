-- ===== src/Postgres/EventStore.antt =====
-- packages/postgres/src/pg-event-store.ts.
pub mod Tables
pub mod Rows
pub mod Append
pub mod Reads
pub mod Verify
pub mod Versions
pub mod Published
pub mod Dismissals
pub mod Projected
