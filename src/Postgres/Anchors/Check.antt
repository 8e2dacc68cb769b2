-- ===== src/Postgres/Anchors/Check.antt =====
-- `verifyAnchors` of packages/postgres/src/chain-anchor-sealer.ts.
use eventfabric.Base.{
  ℕ, suc, Str, codes, Bool, true, false, Option, none, some, List, [], ◌∷◌, ◌++◌, decimal,
  if◌then◌else◌, Result, ok, and_then,
}
use eventfabric.Core.Integrity.HashChain.{anchor_genesis, compute_anchor_hash, hashes_equal}
use eventfabric.Postgres.EventStore.Tables.{Backend, EventRow}
use eventfabric.Postgres.Anchors.Tables.{
  Anchor, SealedHead, AnchorDb, anchors_of, members_of, latest_sealed, live_hash, member_stream,
}

pub data AnchorFailureKind : Type 0 where
  anchor_link_mismatch : AnchorFailureKind
  anchor_hash_mismatch : AnchorFailureKind
  sealed_event_missing : AnchorFailureKind
  head_mismatch : AnchorFailureKind

pub record AnchorFailure : Type 0 where
  pub kind : AnchorFailureKind
  pub anchor_seq : Option ℕ
  pub aggregate_name : Option Str
  pub aggregate_id : Option Str
  pub detail : Str

-- `ok`, which is a constructor here, is called `intact`.
pub record AnchorVerificationResult : Type 0 where
  pub intact : Bool
  pub tenant_id : Str
  pub anchors_checked : ℕ
  pub streams_checked : ℕ
  pub failure : Option AnchorFailure

-- A loop has checked a number of rows, or has met a failure behind as many.
pub data Checked : Type 0 where
  failed : ℕ → AnchorFailure → Checked
  all_checked : ℕ → Checked

abbrev pub anchor_failure : AnchorFailureKind → ℕ → Str → AnchorFailure
anchor_failure kind seq detail = record {
  kind = kind;
  anchor_seq = some seq;
  aggregate_name = none;
  aggregate_id = none;
  detail = detail;
}

abbrev pub stream_failure : AnchorFailureKind → SealedHead → Str → AnchorFailure
stream_failure kind r detail = record {
  kind = kind;
  anchor_seq = none;
  aggregate_name = some r.member.aggregate_name;
  aggregate_id = some r.member.aggregate_id;
  detail = detail;
}

module _ {P : Type 0} where
  -- The loop over the last sealed heads.
  unfoldable pub check_heads : Str → ℕ → List SealedHead → List (EventRow P) → Checked
  unfolding live_hash
  check_heads tenant n [] events = all_checked n
  check_heads tenant n (r ∷ rs) events =
      let rest = check_heads tenant (suc n) rs events in
      elim (live_hash (member_stream tenant r.member) r.member.version events) [
        | none ↦ failed n (
            stream_failure sealed_event_missing r (
              codes "no event at sealed version "
              ++ (decimal r.member.version
                  ++ codes " (stream deleted, rolled back, or truncated)")))
        | some hash ↦
            if hashes_equal hash (some r.member.head_hash)
            then rest
            else failed n (
                stream_failure head_mismatch r (
                  codes "event_hash at sealed version "
                  ++ (decimal r.member.version ++ codes " no longer matches the sealed head")))
      ]

module _ {P : Type 0} (backend : Backend P) (secret : Str) (text_before : Str → Str → Bool) where
  -- The loop over the anchors.
  unfoldable pub check_anchors : Str → List SealedHead → ℕ → Str → List Anchor → Result Checked
  unfolding members_of
  check_anchors tenant rows n prev [] = ok (all_checked n)
  check_anchors tenant rows n prev (a ∷ later) =
      let rest =
        and_then
          (compute_anchor_hash backend.host secret prev
            (members_of text_before tenant a.anchor_seq rows))
          (λ recomputed.
            if hashes_equal (some recomputed) (some a.anchor_hash)
            then check_anchors tenant rows (suc n) recomputed later
            else ok (
                failed n (
                  anchor_failure anchor_hash_mismatch a.anchor_seq
                    (codes "anchor_hash does not match its sealed members")))) in
      if hashes_equal (some a.prev_anchor_hash) (some prev)
      then rest
      else ok (
          failed n (
            anchor_failure anchor_link_mismatch a.anchor_seq
              (codes "prev_anchor_hash does not chain to the previous anchor")))

  -- The second part, behind the anchors.
  unfoldable pub check_streams : Str → AnchorDb P → Checked → AnchorVerificationResult
  unfolding latest_sealed check_heads
  check_streams tenant st (failed n f) = record {
    intact = false;
    tenant_id = tenant;
    anchors_checked = n;
    streams_checked = 0;
    failure = some f;
  }
  check_streams tenant st (all_checked n) =
      elim (check_heads tenant 0 (latest_sealed text_before tenant st.members) st.db.events) [
        | failed k f ↦ record {
          intact = false;
          tenant_id = tenant;
          anchors_checked = n;
          streams_checked = k;
          failure = some f;
        }
        | all_checked k ↦ record {
          intact = true;
          tenant_id = tenant;
          anchors_checked = n;
          streams_checked = k;
          failure = none;
        }
      ]

  unfoldable pub verify_anchors : Str → AnchorDb P → Result AnchorVerificationResult
  unfolding anchors_of check_anchors check_streams
  verify_anchors tenant st = and_then (anchor_genesis backend.host secret tenant) (λ genesis.
      and_then (check_anchors tenant st.members 0 genesis (anchors_of tenant st.anchors))
        (λ c. ok (check_streams tenant st c)))
