-- ===== src/Postgres/Anchors.antt =====
-- packages/postgres/src/chain-anchor-sealer.ts.
pub mod Tables
pub mod Seal
pub mod Check
pub mod Rounds
pub mod Live
pub mod Linked
pub mod Healthy
pub mod Alarms
pub mod Latest
pub mod Detected
pub mod Inserts
pub mod Covered
