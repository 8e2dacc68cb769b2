-- ===== src/Core/Integrity/HashChain.antt =====
-- The hashes of packages/core/src/integrity/hash-chain.ts. A buffer is the list of its bytes; what
-- a MAC is fed by several `update` calls is the concatenation.
pub mod Stored
use eventfabric.Base.{
  ℕ, Str, codes, Bool, true, false, Option, none, some, List, [], ◌∷◌, ◌++◌, Result, ok, err,
  and_then, decimal, str_eq,
}
use eventfabric.Core.Integrity.Json.{Json, null, num, str, obj, Fields, no_fields, field, serialize}

-- What the code takes from node: `JSON.stringify` of a string, the UTF-8 bytes of a text, and
-- HMAC-SHA256 of a key and a message.
pub record Host : Type 0 where
  pub quote : Str → Str
  pub utf8 : Str → Str
  pub hmac : Str → Str → Str

pub record ChainableEvent : Type 0 where
  pub tenant_id : Str
  pub aggregate_name : Str
  pub aggregate_id : Str
  pub aggregate_version : ℕ
  pub event_id : Str
  pub type : Str
  pub version : ℕ
  pub payload : Json
  pub correlation_id : Option Str
  pub causation_id : Option Str

-- `x ?? null`
abbrev pub or_null : Option Str → Json
or_null none = null
or_null (some s) = str s

-- The object whose canonical text is hashed.
abbrev pub preimage : ChainableEvent → Json
preimage e = obj (
    field (codes "tenantId") (str e.tenant_id) (
      field (codes "aggregateName") (str e.aggregate_name) (
        field (codes "aggregateId") (str e.aggregate_id) (
          field (codes "aggregateVersion") (num (decimal e.aggregate_version)) (
            field (codes "eventId") (str e.event_id) (
              field (codes "type") (str e.type) (
                field (codes "version") (num (decimal e.version)) (
                  field (codes "payload") e.payload (
                    field (codes "correlationId") (or_null e.correlation_id)
                      (field (codes "causationId") (or_null e.causation_id) no_fields))))))))))

-- One stream head as an anchor seals it.
pub record AnchorMember : Type 0 where
  pub aggregate_name : Str
  pub aggregate_id : Str
  pub version : ℕ
  pub head_hash : Str

module _ (host : Host) (secret : Str) where
  abbrev pub canonical_json : Json → Result Str
  canonical_json = serialize host.quote

  unfoldable pub compute_event_hash : Str → ChainableEvent → Result Str
  compute_event_hash prev_hash event =
      and_then (canonical_json (preimage event))
        (λ text. ok (host.hmac secret (prev_hash ++ host.utf8 text)))

  -- A tag and the canonical text of an identity, under the key.
  abbrev pub genesis : Str → Json → Result Str
  genesis tag identity =
      and_then (canonical_json identity)
        (λ text. ok (host.hmac secret (host.utf8 tag ++ host.utf8 text)))

  unfoldable pub stream_genesis : Str → Str → Str → Result Str
  stream_genesis tenant_id aggregate_name aggregate_id =
      genesis (codes "eventfabric:stream-genesis:v1") (
        obj (
          field (codes "tenantId") (str tenant_id) (
            field (codes "aggregateName") (str aggregate_name)
              (field (codes "aggregateId") (str aggregate_id) no_fields))))

  unfoldable pub anchor_genesis : Str → Result Str
  anchor_genesis tenant_id =
      genesis (codes "eventfabric:anchor-genesis:v1")
        (obj (field (codes "tenantId") (str tenant_id) no_fields))

  abbrev member_identity : AnchorMember → Json
  member_identity m = obj (
      field (codes "aggregateName") (str m.aggregate_name) (
        field (codes "aggregateId") (str m.aggregate_id)
          (field (codes "version") (num (decimal m.version)) no_fields)))

  -- What the members add to the message, in their order.
  unfoldable pub members_message : List AnchorMember → Result Str
  members_message [] = ok []
  members_message (m ∷ ms) =
      let rest = members_message ms in
      and_then (canonical_json (member_identity m))
        (λ text. and_then rest (λ message. ok (host.utf8 text ++ (m.head_hash ++ message))))

  unfoldable pub compute_anchor_hash : Str → List AnchorMember → Result Str
  unfolding members_message
  compute_anchor_hash prev_anchor_hash members =
      and_then (members_message members)
        (λ message. ok (host.hmac secret (prev_anchor_hash ++ message)))

-- `hashesEqual`: two missing hashes are not equal.
unfoldable pub hashes_equal : Option Str → Option Str → Bool
hashes_equal (some a) (some b) = str_eq a b
hashes_equal _ _ = false
