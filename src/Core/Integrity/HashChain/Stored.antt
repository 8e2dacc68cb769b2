-- ===== src/Core/Integrity/HashChain/Stored.antt =====
-- The hash of an event does not depend on how its payload is stored, in
-- packages/core/src/integrity/hash-chain.ts.
use eventfabric.Base.{Str, ◌≡◌, refl}
use eventfabric.Core.Integrity.Json.{Json}
use eventfabric.Core.Integrity.Json.Order.{
  SameJson, objects, keep_first, none_left, same, serialize-SameJson,
}
use eventfabric.Core.Integrity.HashChain.{Host, ChainableEvent, preimage, compute_event_hash}

pub compute_event_hash-SameJson :
    (host : Host) (secret prev : Str) (e : ChainableEvent) (payload : Json)
    → SameJson e.payload payload
    → compute_event_hash host secret prev (record e { payload = payload })
      ≡ compute_event_hash host secret prev e
unfolding compute_event_hash
compute_event_hash-SameJson host secret prev e payload p =
    let stored : SameJson (preimage e) (preimage (record e { payload = payload })) = objects (
      keep_first _ (same _) (
        keep_first _ (same _) (
          keep_first _ (same _) (
            keep_first _ (same _) (
              keep_first _ (same _) (
                keep_first _ (same _) (
                  keep_first _ (same _) (
                    keep_first _ p
                      (keep_first _ (same _) (keep_first _ (same _) none_left)))))))))) in
    rw (serialize-SameJson host.quote _ _ stored) refl
