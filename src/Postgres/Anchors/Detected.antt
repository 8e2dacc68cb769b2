-- ===== src/Postgres/Anchors/Detected.antt =====
-- What `verifyAnchors` of packages/postgres/src/chain-anchor-sealer.ts has checked.
use eventfabric.Base.{
  ℕ, suc, ◌≡◌, ◌⊎◌, inl, inr, refl, ap, ◌∙◌, Str, Bool, true, Option, none, some, List, [], ◌∷◌,
  All, All-Memᴰ, arith, ok, Bool-cases, Option-cases, str_eq→eq, if◌then◌else◌, and_then-ok, codes,
}
use eventfabric.Core.Integrity.HashChain.{anchor_genesis, compute_anchor_hash, hashes_equal}
use eventfabric.Postgres.EventStore.Tables.{Backend, EventRow}
use eventfabric.Postgres.EventStore.Verify.Loop.{hashes_equal→eq}
use eventfabric.Postgres.Anchors.Tables.{
  Anchor, SealedHead, AnchorDb, anchors_of, latest_sealed, live_hash, member_stream, members_of,
}
use eventfabric.Postgres.Anchors.Check.{
  AnchorVerificationResult, Checked, all_checked, failed, check_heads, check_anchors, check_streams,
  verify_anchors, AnchorFailure, anchor_failure, anchor_hash_mismatch,
}
use eventfabric.Postgres.Anchors.Healthy.Cases.{IsTextOrder}
use eventfabric.Postgres.Anchors.Latest.{IsLatest, latest_sealed-IsLatest}

hashes_equal-some :
    (hash : Option Str) (k : Str) → hashes_equal hash (some k) ≡ true → hash ≡ some k
unfolding hashes_equal
hashes_equal-some none k e = absurd (ground arith)
hashes_equal-some (some h) k e = ap some (str_eq→eq h k e)

module _ {P : Type 0} where
  check_heads→live :
      (tenant : Str) (n : ℕ) (rs : List SealedHead) (events : List (EventRow P)) {k : ℕ}
      → check_heads tenant n rs events ≡ all_checked k
      → All
          (λ r.
            live_hash (member_stream tenant r.member) r.member.version events
            ≡ some (some r.member.head_hash))
          rs
  unfolding check_heads
  check_heads→live tenant n [] events e = tt
  check_heads→live tenant n (r ∷ rs) events {k} e =
      elim (Option-cases (live_hash (member_stream tenant r.member) r.member.version events)) [
        | inl missing ↦ absurd (ground (arith, missing))
        | inr (hash, found) ↦ elim (Bool-cases (hashes_equal hash (some r.member.head_hash))) [
          | inr f ↦ absurd (ground (arith, found, f))
          | inl t ↦
              let later : check_heads tenant (suc n) rs events ≡ all_checked k =
                ground (arith, found, t) in
              let same = hashes_equal-some hash r.member.head_hash t in
              (found ∙ ap some same, check_heads→live tenant (suc n) rs events later)
        ]
      ]

Checked-cases :
    (c : Checked)
    → ((n : ℕ) × (c ≡ all_checked n)) ⊎ ((n : ℕ) × (f : AnchorFailure) × (c ≡ failed n f))
Checked-cases (all_checked n) = inl (n, refl)
Checked-cases (failed n f) = inr (n, f, refl)

module _ {P : Type 0} (backend : Backend P) (secret : Str) (text_before : Str → Str → Bool) where
  -- The anchors are linked behind a hash, and each has the hash of its members.
  abbrev pub AreLinked : Str → List SealedHead → Str → List Anchor → Type 0
  AreLinked tenant rows p [] = Unit
  AreLinked tenant rows p (a ∷ later) =
      (a.prev_anchor_hash ≡ p)
      × (compute_anchor_hash backend.host secret p (members_of text_before tenant a.anchor_seq rows)
          ≡ ok a.anchor_hash)
      × AreLinked tenant rows a.anchor_hash later

  check_anchors→AreLinked :
      (tenant : Str) (rows : List SealedHead) (n : ℕ) (p : Str) (xs : List Anchor) {k : ℕ}
      → check_anchors backend secret text_before tenant rows n p xs ≡ ok (all_checked k)
      → AreLinked tenant rows p xs
  unfolding check_anchors
  check_anchors→AreLinked tenant rows n p [] e = tt
  check_anchors→AreLinked tenant rows n p (a ∷ later) {k} e =
      elim (Bool-cases (hashes_equal (some a.prev_anchor_hash) (some p))) [
        | inr f ↦ absurd (ground (arith, f))
        | inl t ↦
            let (hash, computed, rest) =
              and_then-ok
                (compute_anchor_hash backend.host secret p
                  (members_of text_before tenant a.anchor_seq rows))
                (λ recomputed.
                  if hashes_equal (some recomputed) (some a.anchor_hash)
                  then check_anchors backend secret text_before tenant rows (suc n) recomputed later
                  else ok (
                      failed n (
                        anchor_failure anchor_hash_mismatch a.anchor_seq
                          (codes "anchor_hash does not match its sealed members"))))
                {b = all_checked k} (ground (arith, t)) in
            elim (Bool-cases (hashes_equal (some hash) (some a.anchor_hash))) [
              | inr f ↦ absurd (ground (arith, f, rest))
              | inl t' ↦
                  let same = hashes_equal→eq hash a.anchor_hash t' in
                  let going_on : check_anchors backend secret text_before tenant rows (suc n) hash
                        later
                      ≡ ok (all_checked k) =
                    ground (arith, t', rest) in
                  (
                    hashes_equal→eq a.prev_anchor_hash p t,
                    computed ∙ ap ok same,
                    check_anchors→AreLinked tenant rows (suc n) a.anchor_hash later {k = k}
                        (rw (← same) going_on),
                  )
            ]
      ]

  check_streams→all :
      (tenant : Str) (st : AnchorDb P) (c : Checked)
      → (check_streams backend secret text_before tenant st c).intact ≡ true
      → (n : ℕ) × (k : ℕ) × (c ≡ all_checked n)
        × (check_heads tenant 0 (latest_sealed text_before tenant st.members) st.db.events
            ≡ all_checked k)
  unfolding check_streams
  check_streams→all tenant st (failed n f) e = cc
  check_streams→all tenant st (all_checked n) e =
      elim (Checked-cases
        (check_heads tenant 0 (latest_sealed text_before tenant st.members) st.db.events)) [
          | inl (k, all) ↦ (n, k, refl, all)
          | inr (k, f, broken) ↦ absurd (ground (arith, broken))
        ]

module _ {P : Type 0} (backend : Backend P) (secret : Str) (text_before : Str → Str → Bool)
    (order : IsTextOrder text_before) where
  -- Where texts are ordered linearly: if verify_anchors finds a tenant intact, then its anchors are
  -- linked from the genesis hash on, each with the hash of its members, and for the latest sealed
  -- head of each of its streams there is an event at the sealed version, the first of which has the
  -- sealed hash; so a stream that is deleted, rolled back or truncated below it is detected.
  pub verify_anchors-detects :
      (tenant : Str) (st : AnchorDb P) {v : AnchorVerificationResult}
      → verify_anchors backend secret text_before tenant st ≡ ok v
      → v.intact ≡ true
      → ((genesis : Str) × (anchor_genesis backend.host secret tenant ≡ ok genesis)
          × AreLinked backend secret text_before tenant st.members genesis
              (anchors_of tenant st.anchors))
        × ((r : SealedHead)
            → IsLatest text_before order tenant st.members r
            → live_hash (member_stream tenant r.member) r.member.version st.db.events
              ≡ some (some r.member.head_hash))
  unfolding verify_anchors
  verify_anchors-detects tenant st {v} e intact =
      let (genesis, g, rest) = and_then-ok (anchor_genesis backend.host secret tenant) _ e in
      let (c, checked, result) =
        and_then-ok
          (check_anchors backend secret text_before tenant st.members 0 genesis
            (anchors_of tenant st.anchors))
          (λ c. ok (check_streams backend secret text_before tenant st c)) rest in
      let is_result : check_streams backend secret text_before tenant st c ≡ v = ground arith in
      let (n, k, all, heads) =
        check_streams→all backend secret text_before tenant st c
          (ap (λ x. x.intact) is_result ∙ intact) in
      let live =
        check_heads→live tenant 0 (latest_sealed text_before tenant st.members) st.db.events
          heads in
      (
        (
          genesis,
          g,
          check_anchors→AreLinked backend secret text_before tenant st.members 0 genesis
              (anchors_of tenant st.anchors) (checked ∙ ap ok all),
        ),
        λ r latest.
            All-Memᴰ _ (latest_sealed text_before tenant st.members) live
              (latest_sealed-IsLatest text_before order tenant st.members r latest),
      )
