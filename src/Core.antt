-- ===== src/Core.antt =====
-- packages/core: the types that every package shares, and the concurrency retry.
pub mod Types
pub mod Aggregate
pub mod Retry
pub mod Projections
pub mod Integrity
mod Tests
