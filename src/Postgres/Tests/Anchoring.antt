-- ===== src/Postgres/Tests/Anchoring.antt =====
-- Anchors over a chained account, at concrete tables.
use eventfabric.Base.{
  ℕ, All, ltb, ◌==◌, ◌≡◌, inl, refl, Str, codes, Bool, true, false, Option, none, some, [], ◌∷◌,
  keep, arith, length, ok, err, Result, str_eq, includes, sort_by, order_by, distinct_on, decimal,
  lookup, insert, if◌then◌else◌,
}
use eventfabric.Core.Integrity.Json.{serialize}
use eventfabric.Core.Integrity.HashChain.{
  anchor_genesis, stream_genesis, compute_event_hash, compute_anchor_hash, hashes_equal,
}
use eventfabric.Postgres.EventStore.Tables.{find_stream, same_stream, set_stream}
use eventfabric.Postgres.EventStore.Rows.{chain_batch}
use eventfabric.Postgres.EventStore.Append.{append}
use eventfabric.Postgres.Anchors.Tables.{
  AnchorDb, SealedHead, is_anchor_of, anchors_of, chained_heads, latest_sealed, live_hash,
  member_stream,
}
use eventfabric.Postgres.Anchors.Seal.{SealResult, seal, delta}
use eventfabric.Postgres.Anchors.Check.{
  AnchorVerificationResult, AnchorFailureKind, head_mismatch, verify_anchors,
}
use eventfabric.Postgres.Anchors.Healthy.{intact_anchors}
use eventfabric.Postgres.Anchors.Healthy.Cases.{IsTextOrder}
use eventfabric.Postgres.Anchors.Alarms.{Step, Reach, here, next, no_rows, verify_anchors-Reach}
use eventfabric.Postgres.Anchors.Latest.{IsLatest}
use eventfabric.Postgres.Anchors.Detected.{AreLinked, verify_anchors-detects}
use eventfabric.Postgres.Anchors.Covered.{IsCovered, seal-IsCovered}
use eventfabric.Postgres.Tests.{backend, uuids, plain_store, chained_store, two_deposits, one_more}

-- Texts by their codes, a beginning before what goes on.
text_before : Str → Str → Bool
text_before [] t = true
text_before (a ∷ s) [] = false
text_before (a ∷ s) (b ∷ t) =
    let later = text_before s t in if ltb a b then true else if a == b then later else false

text_before_total : (s t : Str) → text_before s t ≡ false → text_before t s ≡ true
unfolding text_before
text_before_total [] t e = cc
text_before_total (a ∷ s) [] e = refl
text_before_total (a ∷ s) (b ∷ t) e = ground (arith, text_before_total s t)

text_before_trans :
    (s t u : Str) → text_before s t ≡ true → text_before t u ≡ true → text_before s u ≡ true
unfolding text_before
text_before_trans [] t u e f = refl
text_before_trans (a ∷ s) [] u e f = cc
text_before_trans (a ∷ s) (b ∷ t) [] e f = cc
text_before_trans (a ∷ s) (b ∷ t) (c ∷ u) e f = ground (arith, text_before_trans s t u)

text_before_antisym : (s t : Str) → text_before s t ≡ true → text_before t s ≡ true → s ≡ t
unfolding text_before
text_before_antisym [] [] e f = refl
text_before_antisym [] (b ∷ t) e f = cc
text_before_antisym (a ∷ s) [] e f = cc
text_before_antisym (a ∷ s) (b ∷ t) e f = ground (arith, text_before_antisym s t)

text_order : IsTextOrder text_before
text_order = record {
  total = text_before_total;
  trans = text_before_trans;
  antisym = text_before_antisym;
}

abbrev start : AnchorDb ℕ
start = no_rows (record { rows = []; dead_letters = [] }) 1 1

abbrev appended : AnchorDb ℕ
appended = record start {
  db = (append backend uuids 0 chained_store (codes "t") two_deposits start.db).1;
}

abbrev sealed : AnchorDb ℕ
sealed = (seal backend (codes "k") text_before (codes "t") appended).1

sealed-Reach : Reach backend (codes "k") text_before start sealed
unfolding includes str_eq
sealed-Reach =
    next
      (next here (
        Step.appended uuids 0 chained_store (codes "t") two_deposits start (inl (codes "k", refl))))
      (Step.sealed (codes "t") appended)

verify_anchors-Reach_example :
    verify_anchors backend (codes "k") text_before (codes "t") sealed
    ≡ ok (
        intact_anchors
          (codes "t")
          (length (keep (is_anchor_of (codes "t")) sealed.anchors))
          (length (latest_sealed text_before (codes "t") sealed.members)))
verify_anchors-Reach_example =
    verify_anchors-Reach backend (codes "k") text_before text_order
      (record { rows = []; dead_letters = [] }) 1 1 sealed-Reach (codes "t")

-- One anchor over one stream.
sealed_once : (length sealed.anchors ≡ 1) × (length sealed.members ≡ 1)
unfolding seal append find_stream stream_genesis compute_event_hash serialize chain_batch
    anchor_genesis compute_anchor_hash chained_heads text_before includes str_eq decimal sort_by
    order_by delta lookup distinct_on
sealed_once = (refl, refl)

sealed_is_intact :
    verify_anchors backend (codes "k") text_before (codes "t") sealed
    ≡ ok (
        intact_anchors
          (codes "t")
          (length (keep (is_anchor_of (codes "t")) sealed.anchors))
          (length (latest_sealed text_before (codes "t") sealed.members)))
sealed_is_intact =
    verify_anchors-Reach backend (codes "k") text_before text_order
      (record { rows = []; dead_letters = [] }) 1 1 sealed-Reach (codes "t")

verify_anchors-detects_example :
    ((genesis : Str) × (anchor_genesis backend.host (codes "k") (codes "t") ≡ ok genesis)
      × AreLinked backend
          (codes "k")
          text_before
          (codes "t")
          sealed.members
          genesis
          (anchors_of (codes "t") sealed.anchors))
    × ((r : SealedHead)
        → IsLatest text_before text_order (codes "t") sealed.members r
        → live_hash (member_stream (codes "t") r.member) r.member.version sealed.db.events
          ≡ some (some r.member.head_hash))
verify_anchors-detects_example =
    verify_anchors-detects backend (codes "k") text_before text_order (codes "t") sealed
      sealed_is_intact refl

-- A store without a secret appends to the chained stream, and the tenant is sealed again.
abbrev half_chained : AnchorDb ℕ
half_chained =
    (seal backend (codes "k") text_before (codes "t") (record sealed {
      db = (append backend uuids 1 plain_store (codes "t") one_more sealed.db).1;
    })).1

abbrev kind_of : Result AnchorVerificationResult → Option AnchorFailureKind
kind_of (err e) = none
kind_of (ok v) = elim v.failure [ none ↦ none | some f ↦ some f.kind ]

-- The anchors then raise an alarm.
alarm_raised :
    kind_of (verify_anchors backend (codes "k") text_before (codes "t") half_chained)
    ≡ some head_mismatch
unfolding seal append find_stream stream_genesis compute_event_hash serialize chain_batch
    anchor_genesis compute_anchor_hash chained_heads text_before includes str_eq decimal sort_by
    order_by delta lookup distinct_on verify_anchors live_hash hashes_equal insert same_stream
    set_stream
alarm_raised = refl

appended-Reach : Reach backend (codes "k") text_before start appended
unfolding includes str_eq
appended-Reach =
    next here
      (Step.appended uuids 0 chained_store (codes "t") two_deposits start (inl (codes "k", refl)))

seal-IsCovered_example :
    ((r : SealResult) × ((seal backend (codes "k") text_before (codes "t") appended).0 ≡ ok r))
    × All
        (IsCovered (codes "t") sealed.members)
        (chained_heads (codes "t") appended.db.stream_versions)
unfolding append find_stream stream_genesis compute_event_hash serialize chain_batch chained_heads
    includes str_eq decimal
seal-IsCovered_example =
    seal-IsCovered backend (codes "k") text_before text_order
      (record { rows = []; dead_letters = [] }) 1 1 appended-Reach (codes "t") tt (omega arith, tt)
