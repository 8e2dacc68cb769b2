-- ===== src/Postgres/Anchors/Seal.antt =====
-- `seal` of packages/postgres/src/chain-anchor-sealer.ts.
use eventfabric.Base.{
  ℕ, suc, ◌==◌, Str, codes, Bool, true, false, ◌&&◌, Option, none, some, List, [], ◌∷◌, ◌++◌, map,
  keep, str_eq, length, if◌then◌else◌, Result, ok, err, thrown,
}
use eventfabric.Core.Integrity.HashChain.{AnchorMember, anchor_genesis, compute_anchor_hash}
use eventfabric.Postgres.EventStore.Tables.{Backend}
use eventfabric.Postgres.Anchors.Tables.{
  Anchor, SealedHead, AnchorDb, anchors_of, last_of, latest_sealed, heads_in_order, last_versions,
  has_advanced,
}

-- `sealed`, a flag of the result, is called `is_sealed`.
pub record SealResult : Type 0 where
  pub tenant_id : Str
  pub anchor_seq : ℕ
  pub is_sealed : Bool
  pub member_count : ℕ

abbrev pub last_seq : Option Anchor → ℕ
last_seq none = 0
last_seq (some a) = a.anchor_seq

abbrev pub sealed_rows : Str → ℕ → List AnchorMember → List SealedHead
sealed_rows tenant seq ms =
    map (λ m. record { tenant_id = tenant; anchor_seq = seq; member = m }) ms

-- A row with the primary key is there.
unfoldable pub has_anchor : Str → ℕ → List Anchor → Bool
has_anchor tenant seq [] = false
has_anchor tenant seq (a ∷ later) =
    if str_eq a.tenant_id tenant && (a.anchor_seq == seq) then true else has_anchor tenant seq later

module _ {P : Type 0} (backend : Backend P) (secret : Str) (text_before : Str → Str → Bool) where
  -- `prevRes.rows[0]?.anchor_hash ?? anchorGenesis(...)`
  abbrev pub previous_anchor_hash : Str → Option Anchor → Result Str
  previous_anchor_hash tenant none = anchor_genesis backend.host secret tenant
  previous_anchor_hash tenant (some a) = ok a.anchor_hash

  -- The heads that are new or have advanced, in the order of the query.
  unfoldable pub delta : Str → AnchorDb P → List AnchorMember
  unfolding heads_in_order latest_sealed last_versions
  delta tenant st =
      keep (has_advanced (last_versions [] (latest_sealed text_before tenant st.members)))
        (heads_in_order text_before tenant st.db.stream_versions)

  -- The rows of the two INSERTs.
  abbrev pub with_anchor : Str → ℕ → Str → Str → List AnchorMember → AnchorDb P → AnchorDb P
  with_anchor tenant seq prev hash ms st = record st {
    anchors =
        st.anchors
        ++ record {
          tenant_id = tenant;
          anchor_seq = seq;
          prev_anchor_hash = prev;
          anchor_hash = hash;
          member_count = length ms;
        }
          ∷ [];
    members = st.members ++ sealed_rows tenant seq ms;
  }

  unfoldable pub insert_anchor :
      Str → ℕ → Str → Str → List AnchorMember → AnchorDb P → Result SealResult × AnchorDb P
  unfolding has_anchor
  insert_anchor tenant seq prev hash ms st =
      if has_anchor tenant seq st.anchors
      then (err (thrown (codes "duplicate key value violates unique constraint")), st)
      else (
        ok (record {
          tenant_id = tenant;
          anchor_seq = seq;
          is_sealed = true;
          member_count = length ms;
        }),
        with_anchor tenant seq prev hash ms st,
      )

  -- What follows the queries: `none` where no stream has advanced.
  unfoldable pub seal_members :
      Str → Option Anchor → Str → List AnchorMember → AnchorDb P → Result SealResult × AnchorDb P
  unfolding insert_anchor
  seal_members tenant last prev [] st = (
    ok (record {
      tenant_id = tenant;
      anchor_seq = last_seq last;
      is_sealed = false;
      member_count = 0;
    }),
    st,
  )
  seal_members tenant last prev (m ∷ ms) st =
      elim (compute_anchor_hash backend.host secret prev (m ∷ ms)) [
        | err e ↦ (err e, st)
        | ok hash ↦ insert_anchor tenant (suc (last_seq last)) prev hash (m ∷ ms) st
      ]

  unfoldable pub seal : Str → AnchorDb P → Result SealResult × AnchorDb P
  unfolding anchors_of delta seal_members
  seal tenant st =
      let last = last_of none (anchors_of tenant st.anchors) in
      elim (previous_anchor_hash tenant last) [
        | err e ↦ (err e, st)
        | ok prev ↦ seal_members tenant last prev (delta tenant st) st
      ]
