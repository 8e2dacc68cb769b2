-- ===== src/Core/Integrity.antt =====
-- packages/core/src/integrity/hash-chain.ts: the text that is hashed, and the hashes.
pub mod Json
pub mod HashChain
