-- ===== src/Postgres/Anchors/Healthy.antt =====
-- Tables that `seal` of packages/postgres/src/chain-anchor-sealer.ts and `append` of
-- packages/postgres/src/pg-event-store.ts keep.
pub mod Rows
pub mod Cases
pub mod Sealed
pub mod Appended
use eventfabric.Base.{
  ℕ, suc, ◌+◌, ◌<◌, ◌≤◌, ◌≡◌, refl, sym, ap, subst, ◌∙◌, Str, Bool, true, false, Option, none, some,
  List, [], ◌∷◌, ◌++◌, map, keep, All, All-map, arith, length, ok, Result, and_then, keep_passing,
  str_eq→eq, order_by-All, distinct_on-All, keep-All, All-keep,
}
use eventfabric.Core.Integrity.HashChain.{anchor_genesis}
use eventfabric.Postgres.EventStore.Tables.{Backend, StreamVersion, EventRow}
use eventfabric.Postgres.EventStore.Versions.{IsConsistent}
use eventfabric.Postgres.EventStore.Verify.Loop.{hashes_equal_self}
use eventfabric.Postgres.Anchors.Tables.{
  SealedHead, AnchorDb, anchors_of, is_anchor_of, is_head_of, live_hash, member_stream,
  latest_sealed, sealed_before, same_columns,
}
use eventfabric.Postgres.Anchors.Check.{
  AnchorVerificationResult, all_checked, check_heads, check_streams, verify_anchors,
}
use eventfabric.Postgres.Anchors.Linked.{Linked, end_seq, anchors_in_order, check_anchors-Linked}

abbrev pub intact_anchors : Str → ℕ → ℕ → AnchorVerificationResult
intact_anchors tenant anchors streams = record {
  intact = true;
  tenant_id = tenant;
  anchors_checked = anchors;
  streams_checked = streams;
  failure = none;
}

module _ {P : Type 0} where
  -- The event at the version of a stream has the head hash, where there is one.
  abbrev pub HeadIsLive : List (EventRow P) → StreamVersion → Type 0
  HeadIsLive events v =
      (h : Str) → v.head_hash ≡ some h → live_hash v.stream v.current_version events ≡ some (some h)

  -- The event at the sealed version has the sealed hash.
  abbrev pub SealedIsLive : List (EventRow P) → SealedHead → Type 0
  SealedIsLive events r =
      live_hash (member_stream r.tenant_id r.member) r.member.version events
      ≡ some (some r.member.head_hash)

  pub check_heads-live :
      (tenant : Str) (n : ℕ) (rs : List SealedHead) (events : List (EventRow P))
      → All (λ r. (r.tenant_id ≡ tenant) × SealedIsLive events r) rs
      → check_heads tenant n rs events ≡ all_checked (n + length rs)
  unfolding check_heads
  check_heads-live tenant n [] events h = ap all_checked (omega arith)
  check_heads-live tenant n (r ∷ rs) events (h, rest) =
      let same : suc n + length rs ≡ n + suc (length rs) = omega arith in
      let live : live_hash (member_stream tenant r.member) r.member.version events
          ≡ some (some r.member.head_hash) =
        rw (← h.0) h.1 in
      let later = check_heads-live tenant (suc n) rs events rest in
      ground (arith, live, hashes_equal_self r.member.head_hash, later, same)

module _ {P : Type 0} (backend : Backend P) (secret : Str) (text_before : Str → Str → Bool) where
  -- The tables are consistent, the heads and the sealed heads are those of events, and the anchors
  -- of each tenant are linked; no sealed head has a number above them.
  pub record IsHealthy (st : AnchorDb P) : Type 0 where
    pub consistent : IsConsistent st.db
    pub heads : All (HeadIsLive st.db.events) st.db.stream_versions
    pub sealed : All (SealedIsLive st.db.events) st.members
    pub numbered :
        All (λ r. r.anchor_seq ≤ end_seq 0 (keep (is_anchor_of r.tenant_id) st.anchors)) st.members
    pub linked :
        (tenant genesis : Str)
        → anchor_genesis backend.host secret tenant ≡ ok genesis
        → Linked backend secret text_before tenant st.members 0 genesis
            (keep (is_anchor_of tenant) st.anchors)

  pub latest_sealed-live :
      (tenant : Str) (st : AnchorDb P)
      → IsHealthy st
      → All
          (λ r. (r.tenant_id ≡ tenant) × SealedIsLive st.db.events r)
          (latest_sealed text_before tenant st.members)
  unfolding latest_sealed
  latest_sealed-live tenant st h = distinct_on-All (same_columns text_before) _ _ (
      order_by-All (sealed_before text_before) _ _ (
        All-map _ _ (λ r (live, t). (str_eq→eq r.tenant_id tenant t, live)) _
          (keep_passing _ (is_head_of text_before tenant) st.members h.sealed)))

  check_streams-all :
      (tenant : Str) (n k : ℕ) (st : AnchorDb P)
      → check_heads tenant 0 (latest_sealed text_before tenant st.members) st.db.events
        ≡ all_checked k
      → check_streams backend secret text_before tenant st (all_checked n)
        ≡ intact_anchors tenant n k
  unfolding check_streams
  check_streams-all tenant n k st e = ground (arith, e)

  -- Where the genesis hash is computed, healthy tables are found intact.
  pub verify_anchors-IsHealthy :
      (tenant genesis : Str) (st : AnchorDb P)
      → IsHealthy st
      → anchor_genesis backend.host secret tenant ≡ ok genesis
      → verify_anchors backend secret text_before tenant st
        ≡ ok (
            intact_anchors tenant
              (length (keep (is_anchor_of tenant) st.anchors))
              (length (latest_sealed text_before tenant st.members)))
  unfolding verify_anchors anchors_of
  verify_anchors-IsHealthy tenant genesis st h g =
      let links = h.linked tenant genesis g in
      let anchors = keep (is_anchor_of tenant) st.anchors in
      let streams = latest_sealed text_before tenant st.members in
      let all_streams : check_heads tenant 0 streams st.db.events ≡ all_checked (length streams) =
        check_heads-live tenant 0 streams st.db.events (latest_sealed-live tenant st h)
        ∙ ap all_checked (omega arith) in
      let count : 0 + length anchors ≡ length anchors = omega arith in
      rw
        (
          g,
          anchors_in_order backend secret text_before tenant st.members 0 genesis anchors links,
          check_anchors-Linked backend secret text_before tenant st.members 0 0 genesis anchors
              links,
          count,
        )
        (ap ok (check_streams-all tenant (length anchors) (length streams) st all_streams))
