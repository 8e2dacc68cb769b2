-- ===== src/Postgres/Anchors/Tables.antt =====
-- The tables of packages/postgres/src/chain-anchor-sealer.ts, `event_chain_anchors` and
-- `event_chain_anchor_members`, beside those of the event store, and its queries on them.
use eventfabric.Base.{
  ℕ, ltb, ◌==◌, Str, Bool, true, not, ◌&&◌, Option, none, some, List, [], ◌∷◌, ◌++◌, map, keep,
  str_eq, sort_by, order_by, distinct_on, Dict, lookup, insert, if◌then◌else◌,
}
use eventfabric.Core.Integrity.HashChain.{AnchorMember}
use eventfabric.Postgres.EventStore.Tables.{StreamId, StreamVersion, EventRow, Db}
use eventfabric.Postgres.EventStore.Reads.{in_stream}

pub record Anchor : Type 0 where
  pub tenant_id : Str
  pub anchor_seq : ℕ
  pub prev_anchor_hash : Str
  pub anchor_hash : Str
  pub member_count : ℕ

-- A sealed head: `sealed_version` and `sealed_head_hash` are those of the member.
pub record SealedHead : Type 0 where
  pub tenant_id : Str
  pub anchor_seq : ℕ
  pub member : AnchorMember

pub record AnchorDb (P : Type 0) : Type 0 where
  pub db : Db P
  pub anchors : List Anchor
  pub members : List SealedHead

abbrev pub anchor_seq_of : Anchor → ℕ
anchor_seq_of a = a.anchor_seq

abbrev pub is_anchor_of : Str → Anchor → Bool
is_anchor_of tenant a = str_eq a.tenant_id tenant

-- `WHERE tenant_id = $1 ORDER BY anchor_seq ASC`
unfoldable pub anchors_of : Str → List Anchor → List Anchor
anchors_of tenant anchors = sort_by anchor_seq_of (keep (is_anchor_of tenant) anchors)

-- The last of a list: with the order turned round, the row of `LIMIT 1`.
abbrev pub last_of : Option Anchor → List Anchor → Option Anchor
last_of a [] = a
last_of a (b ∷ bs) = last_of (some b) bs

-- The stream of a member, and of a sealed head.
abbrev pub member_stream : Str → AnchorMember → StreamId
member_stream tenant m = record {
  tenant_id = tenant;
  aggregate_name = m.aggregate_name;
  aggregate_id = m.aggregate_id;
}

-- The rows of `stream_versions` with `tenant_id = $1 AND head_hash IS NOT NULL`, as members.
unfoldable pub chained_heads : Str → List StreamVersion → List AnchorMember
chained_heads tenant [] = []
chained_heads tenant (v ∷ vs) =
    let rest = chained_heads tenant vs in
    elim v.head_hash [
      | none ↦ rest
      | some head ↦
          if str_eq v.stream.tenant_id tenant
          then record {
            aggregate_name = v.stream.aggregate_name;
            aggregate_id = v.stream.aggregate_id;
            version = v.current_version;
            head_hash = head;
          }
            ∷ rest
          else rest
    ]

-- The members of one anchor: `tenant_id = $1 AND anchor_seq = $2`.
abbrev pub is_sealed_in : Str → ℕ → SealedHead → Bool
is_sealed_in tenant seq r = str_eq r.tenant_id tenant && (r.anchor_seq == seq)

-- The order of texts in the database.
module _ (text_before : Str → Str → Bool) where
  -- `ORDER BY aggregate_name, aggregate_id`
  abbrev pub member_before : AnchorMember → AnchorMember → Bool
  member_before m n =
      if str_eq m.aggregate_name n.aggregate_name
      then text_before m.aggregate_id n.aggregate_id
      else text_before m.aggregate_name n.aggregate_name

  abbrev pub same_columns : SealedHead → SealedHead → Bool
  same_columns r q =
      str_eq r.member.aggregate_name q.member.aggregate_name
      && str_eq r.member.aggregate_id q.member.aggregate_id

  -- `ORDER BY aggregate_name, aggregate_id, anchor_seq DESC`
  abbrev pub sealed_before : SealedHead → SealedHead → Bool
  sealed_before r q =
      if same_columns r q
      then not (ltb r.anchor_seq q.anchor_seq)
      else member_before r.member q.member

  abbrev pub is_head_of : Str → SealedHead → Bool
  is_head_of tenant r = str_eq r.tenant_id tenant

  -- `SELECT DISTINCT ON (aggregate_name, aggregate_id) ...`: the last sealed head of each stream.
  unfoldable pub latest_sealed : Str → List SealedHead → List SealedHead
  latest_sealed tenant rows =
      distinct_on same_columns (order_by sealed_before (keep (is_head_of tenant) rows))

  unfoldable pub heads_in_order : Str → List StreamVersion → List AnchorMember
  unfolding chained_heads
  heads_in_order tenant vs = order_by member_before (chained_heads tenant vs)

  unfoldable pub members_of : Str → ℕ → List SealedHead → List AnchorMember
  members_of tenant seq rows =
      order_by member_before (map (λ r. r.member) (keep (is_sealed_in tenant seq) rows))

-- The hash of the event at a version of a stream, or none where no such event is left.
unfoldable pub live_hash : {P : Type 0} → StreamId → ℕ → List (EventRow P) → Option (Option Str)
live_hash s n [] = none
live_hash s n (r ∷ rs) =
    if in_stream s r && (r.aggregate_version == n) then some r.event_hash else live_hash s n rs

-- The key of the map of last sealed versions: `STREAM_KEY_SEP` is the character 0.
abbrev pub stream_key : AnchorMember → Str
stream_key m = m.aggregate_name ++ (0 ∷ m.aggregate_id)

unfoldable pub last_versions : Dict ℕ → List SealedHead → Dict ℕ
last_versions d [] = d
last_versions d (r ∷ rs) = last_versions (insert (stream_key r.member) r.member.version d) rs

-- Whether a head is new or has advanced.
abbrev pub has_advanced : Dict ℕ → AnchorMember → Bool
has_advanced d m = elim (lookup (stream_key m) d) [ none ↦ true | some v ↦ ltb v m.version ]
