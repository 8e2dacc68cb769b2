-- ===== src/Postgres/Anchors/Inserts.antt =====
-- A call of `seal` that returns, in packages/postgres/src/chain-anchor-sealer.ts.
use eventfabric.Base.{
  ℕ, suc, ◌≤◌, ◌<◌, ◌≡◌, ◌⊎◌, inl, inr, refl, ap, ◌∙◌, Str, Bool, true, false, Option, none, some,
  List, [], ◌∷◌, ◌++◌, keep, All, All-map, arith, length, ok, Result, Bool-cases, Result-cases,
}
use eventfabric.Core.Integrity.HashChain.{AnchorMember, compute_anchor_hash, members_message}
use eventfabric.Core.Integrity.Json.{serialize}
use eventfabric.Postgres.EventStore.Tables.{Backend}
use eventfabric.Postgres.Anchors.Tables.{Anchor, AnchorDb, anchors_of, last_of, is_anchor_of}
use eventfabric.Postgres.Anchors.Linked.{end_seq, last_seq-last_of, anchors_in_order, Linked-le}
use eventfabric.Postgres.Anchors.Healthy.{IsHealthy}
use eventfabric.Postgres.Anchors.Healthy.Sealed.{anchor_genesis-ok}
use eventfabric.Postgres.Anchors.Seal.{
  SealResult, has_anchor, delta, seal, seal_members, insert_anchor, with_anchor, last_seq,
  previous_anchor_hash,
}

module _ {P : Type 0} (backend : Backend P) (secret : Str) (text_before : Str → Str → Bool)
    (tenant : Str) where
  -- The hash of any members is computed.
  members_message-ok :
      (ms : List AnchorMember) → (t : Str) × (members_message backend.host secret ms ≡ ok t)
  unfolding members_message serialize
  members_message-ok [] = ([], refl)
  members_message-ok (m ∷ ms) =
      let (t, e) = members_message-ok ms in
      elim (Result-cases (members_message backend.host secret (m ∷ ms))) [
        | inl done ↦ done
        | inr (x, f) ↦ absurd (ground (arith, e, f))
      ]

  compute_anchor_hash-ok :
      (prev : Str) (ms : List AnchorMember)
      → (h : Str) × (compute_anchor_hash backend.host secret prev ms ≡ ok h)
  unfolding compute_anchor_hash
  compute_anchor_hash-ok prev ms =
      let (t, e) = members_message-ok ms in (backend.host.hmac secret (prev ++ t), rw e refl)

  has_anchor-above :
      (seq : ℕ) (xs : List Anchor)
      → All (λ a. a.anchor_seq < seq) (keep (is_anchor_of tenant) xs)
      → has_anchor tenant seq xs ≡ false
  unfolding has_anchor
  has_anchor-above seq [] h = refl
  has_anchor-above seq (a ∷ xs) h = elim (Bool-cases (is_anchor_of tenant a)) [
    | inl t ↦
        let (below, later) = rw t at h in
        let rest = has_anchor-above seq xs later in ground (arith, t)
    | inr f ↦ let rest = has_anchor-above seq xs (rw f at h) in ground (arith, f)
  ]

module _ {P : Type 0} (backend : Backend P) (secret : Str) (text_before : Str → Str → Bool)
    (tenant : Str) where
  -- A call that returns has inserted an anchor over the members, if there are any.
  abbrev pub Inserts : AnchorDb P → List AnchorMember → Result SealResult × AnchorDb P → Type 0
  Inserts st ms call =
      (r : SealResult) × (call.0 ≡ ok r)
      × (((ms ≡ []) × (call.1 ≡ st))
          ⊎ ((seq : ℕ) × (prev : Str) × (hash : Str) × (call.1
                ≡ with_anchor backend secret text_before tenant seq prev hash ms st)))

  seal_members-Inserts :
      (last : Option Anchor) (prev : Str) (ms : List AnchorMember) (st : AnchorDb P)
      → has_anchor tenant (suc (last_seq last)) st.anchors ≡ false
      → Inserts st ms (seal_members backend secret text_before tenant last prev ms st)
  unfolding seal_members insert_anchor
  seal_members-Inserts last prev [] st free = (_, refl, inl (refl, refl))
  seal_members-Inserts last prev (m ∷ ms) st free =
      let (hash, e) = compute_anchor_hash-ok backend secret text_before tenant prev (m ∷ ms) in
      let seq = suc (last_seq last) in
      (
        record {
          tenant_id = tenant;
          anchor_seq = seq;
          is_sealed = true;
          member_count = length (m ∷ ms);
        },
        ground (arith, e, free),
        inr (seq, prev, hash, ground (arith, e, free)),
      )

  previous_anchor_hash-ok :
      (last : Option Anchor)
      → (prev : Str) × (previous_anchor_hash backend secret text_before tenant last ≡ ok prev)
  previous_anchor_hash-ok none = anchor_genesis-ok backend secret tenant
  previous_anchor_hash-ok (some a) = (a.anchor_hash, refl)

  pub seal-Inserts :
      (st : AnchorDb P)
      → IsHealthy backend secret text_before st
      → Inserts st
          (delta backend secret text_before tenant st)
          (seal backend secret text_before tenant st)
  unfolding seal anchors_of
  seal-Inserts st h =
      let own = keep (is_anchor_of tenant) st.anchors in
      let (genesis, g) = anchor_genesis-ok backend secret tenant in
      let links = h.linked tenant genesis g in
      let sorted =
        anchors_in_order backend secret text_before tenant st.members 0 genesis own links in
      let last = last_of none (anchors_of tenant st.anchors) in
      let seq : last_seq last ≡ end_seq 0 own =
        ap (λ l. last_seq (last_of none l)) sorted ∙ last_seq-last_of own in
      let free =
        has_anchor-above backend secret text_before tenant (suc (last_seq last)) st.anchors (
          All-map _ _ (λ a (q : a.anchor_seq ≤ end_seq 0 own). omega (arith, seq)) own
            (Linked-le backend secret text_before tenant st.members 0 genesis own links)) in
      let (prev, previous) = previous_anchor_hash-ok last in
      let (r, returned, inserted) =
        seal_members-Inserts last prev (delta backend secret text_before tenant st) st free in
      let same : seal backend secret text_before tenant st
          ≡ seal_members backend secret text_before tenant last prev
              (delta backend secret text_before tenant st) st =
        ground (arith, previous) in
      rw same (r, returned, inserted)
