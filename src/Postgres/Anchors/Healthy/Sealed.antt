-- ===== src/Postgres/Anchors/Healthy/Sealed.antt =====
-- `seal` of packages/postgres/src/chain-anchor-sealer.ts on healthy tables.
use eventfabric.Base.{
  suc, ◌≤◌, ◌≡◌, inl, inr, refl, sym, ap, ◌∙◌, Str, Bool, false, none, some, List, [], ◌∷◌, ◌++◌,
  keep, keep-append, All, All-map, All-append, arith, length, ok, Bool-cases, str_eq, str_eq→eq,
  str_eq_refl, Ordered, order_by-All, order_by-Ordered, keep-Ordered, keep-All,
}
use mathlib.Core.List.{append-nil}
use eventfabric.Core.Integrity.HashChain.{AnchorMember, anchor_genesis, compute_anchor_hash}
use eventfabric.Core.Integrity.Json.{serialize}
use eventfabric.Postgres.EventStore.Tables.{Backend}
use eventfabric.Postgres.Anchors.Tables.{
  Anchor, AnchorDb, anchors_of, is_anchor_of, last_of, live_hash, member_stream, chained_heads,
  heads_in_order, member_before,
}
use eventfabric.Postgres.Anchors.Seal.{
  sealed_rows, last_seq, previous_anchor_hash, delta, with_anchor, seal,
}
use eventfabric.Postgres.Anchors.Linked.{
  Linked, end_seq, end_hash, end_seq-snoc, last_seq-last_of, previous-end_hash, Linked-snoc,
  Linked-rows, anchors_in_order,
}
use eventfabric.Postgres.Anchors.Healthy.Rows.{
  All-always, sealed_rows-All, none_above, members_of-new, members_of-old,
}
use eventfabric.Postgres.Anchors.Healthy.{SealedIsLive, IsHealthy}
use eventfabric.Postgres.Anchors.Healthy.Cases.{
  IsTextOrder, member_before-IsOrder, chained_heads-live, seal-cases,
}

module _ {P : Type 0} (backend : Backend P) (secret : Str) (text_before : Str → Str → Bool)
    (tenant prev hash : Str) (ms : List AnchorMember) (st : AnchorDb P)
    (h : IsHealthy backend secret text_before st) where
  abbrev own : List Anchor
  own = keep (is_anchor_of tenant) st.anchors

  abbrev after : AnchorDb P
  after = with_anchor backend secret text_before tenant (suc (end_seq 0 own)) prev hash ms st

  abbrev new : Anchor
  new = record {
    tenant_id = tenant;
    anchor_seq = suc (end_seq 0 own);
    prev_anchor_hash = prev;
    anchor_hash = hash;
    member_count = length ms;
  }

  after-own : keep (is_anchor_of tenant) after.anchors ≡ own ++ new ∷ []
  after-own = rw (keep-append (is_anchor_of tenant) st.anchors (new ∷ []), str_eq_refl tenant) refl

  after-other :
      (t : Str)
      → str_eq tenant t ≡ false
      → keep (is_anchor_of t) after.anchors ≡ keep (is_anchor_of t) st.anchors
  after-other t f =
      rw
        (
          keep-append (is_anchor_of t) st.anchors (new ∷ []),
          f,
          append-nil (keep (is_anchor_of t) st.anchors),
        )
        refl

  end_seq-after :
      (t : Str)
      → end_seq 0 (keep (is_anchor_of t) st.anchors)
        ≤ end_seq 0 (keep (is_anchor_of t) after.anchors)
  end_seq-after t = elim (Bool-cases (str_eq tenant t)) [
    | inr f ↦ rw (after-other t f) (omega arith)
    | inl e ↦ rw (← str_eq→eq tenant t e, after-own, end_seq-snoc 0 own new) (omega arith)
  ]

  numbered-after :
      All
        (λ r. r.anchor_seq ≤ end_seq 0 (keep (is_anchor_of r.tenant_id) after.anchors))
        after.members
  numbered-after =
      All-append _ st.members (sealed_rows tenant (suc (end_seq 0 own)) ms)
        (All-map _ _
          (λ r (q : r.anchor_seq ≤ end_seq 0 (keep (is_anchor_of r.tenant_id) st.anchors)).
            omega (arith, end_seq-after r.tenant_id))
          st.members h.numbered)
        (sealed_rows-All _ tenant (suc (end_seq 0 own)) ms
          (All-always _ ms (rw (after-own, end_seq-snoc 0 own new) (omega arith))))

  Linked-other :
      (t genesis : Str)
      → anchor_genesis backend.host secret t ≡ ok genesis
      → str_eq tenant t ≡ false
      → Linked backend secret text_before t after.members 0 genesis
          (keep (is_anchor_of t) after.anchors)
  Linked-other t genesis g f = rw (after-other t f) (
      Linked-rows backend secret text_before t st.members after.members 0 genesis _
        (λ k below.
          members_of-old text_before tenant (suc (end_seq 0 own)) ms st.members t k
            (ground (arith, f)))
        (h.linked t genesis g))

  Linked-own :
      (genesis : Str)
      → anchor_genesis backend.host secret tenant ≡ ok genesis
      → prev ≡ end_hash genesis own
      → compute_anchor_hash backend.host secret prev ms ≡ ok hash
      → Ordered (member_before text_before) ms
      → Linked backend secret text_before tenant after.members 0 genesis
          (keep (is_anchor_of tenant) after.anchors)
  Linked-own genesis g p c o =
      let none_yet =
        none_above tenant (suc (end_seq 0 own)) st.anchors st.members h.numbered (omega arith) in
      let old =
        Linked-rows backend secret text_before tenant st.members after.members 0 genesis own
          (λ k (below : k ≤ end_seq 0 own).
            members_of-old text_before tenant (suc (end_seq 0 own)) ms st.members tenant k
              (ground arith))
          (h.linked tenant genesis g) in
      rw after-own (
        Linked-snoc backend secret text_before tenant after.members 0 genesis own new old (
          refl,
          p,
          rw (members_of-new text_before tenant (suc (end_seq 0 own)) ms st.members none_yet o, ← p)
              c,
          tt,
        ))

  after-IsHealthy :
      ((genesis : Str)
        → anchor_genesis backend.host secret tenant ≡ ok genesis
        → prev ≡ end_hash genesis own)
      → compute_anchor_hash backend.host secret prev ms ≡ ok hash
      → Ordered (member_before text_before) ms
      → All
          (λ m. live_hash (member_stream tenant m) m.version st.db.events ≡ some (some m.head_hash))
          ms
      → IsHealthy backend secret text_before after
  after-IsHealthy p c o live = record {
    consistent = h.consistent;
    heads = h.heads;
    sealed =
        All-append _ st.members (sealed_rows tenant (suc (end_seq 0 own)) ms) h.sealed
          (sealed_rows-All (SealedIsLive st.db.events) tenant (suc (end_seq 0 own)) ms live);
    numbered = numbered-after;
    linked = λ t genesis g. elim (Bool-cases (str_eq tenant t)) [
      | inr f ↦ Linked-other t genesis g f
      | inl e ↦
          let same = str_eq→eq tenant t e in
          let g' = rw (← same) at g in rw (← same) (Linked-own genesis g' (p genesis g') c o)
    ];
  }

pub anchor_genesis-ok :
    {P : Type 0} (backend : Backend P) (secret tenant : Str)
    → (genesis : Str) × (anchor_genesis backend.host secret tenant ≡ ok genesis)
unfolding anchor_genesis serialize
anchor_genesis-ok backend secret tenant = (_, refl)

module _ {P : Type 0} (backend : Backend P) (secret : Str) (text_before : Str → Str → Bool)
    (order : IsTextOrder text_before) where
  -- `seal` keeps the tables healthy.
  pub seal-IsHealthy :
      (tenant : Str) (st : AnchorDb P)
      → IsHealthy backend secret text_before st
      → IsHealthy backend secret text_before (seal backend secret text_before tenant st).1
  unfolding anchors_of delta heads_in_order
  seal-IsHealthy tenant st h = elim (seal-cases backend secret text_before tenant st) [
    | inl same ↦ rw same h
    | inr (prev, previous, (hash, computed, done)) ↦
        let own = keep (is_anchor_of tenant) st.anchors in
        let (genesis, g) = anchor_genesis-ok backend secret tenant in
        let sorted =
          anchors_in_order backend secret text_before tenant st.members 0 genesis own
            (h.linked tenant genesis g) in
        let seq : suc (last_seq (last_of none (anchors_of tenant st.anchors)))
            ≡ suc (end_seq 0 own) =
          ap (λ l. suc (last_seq (last_of none l))) sorted ∙ ap suc (last_seq-last_of own) in
        let previous' : previous_anchor_hash backend secret text_before tenant (last_of none own)
            ≡ ok prev =
          rw (← sorted) previous in
        let ordered = keep-Ordered (member_before text_before) _ _ (
          order_by-Ordered (member_before text_before) (member_before-IsOrder text_before order)
            (chained_heads tenant st.db.stream_versions)) in
        let live = keep-All _ _ _ (
          order_by-All (member_before text_before) _ _
            (chained_heads-live tenant st.db.events st.db.stream_versions h.heads)) in
        rw (done, seq)
          (after-IsHealthy backend secret text_before tenant prev hash
            (delta backend secret text_before tenant st) st h
            (λ g0 e. sym (previous-end_hash backend secret text_before tenant g0 own e previous'))
            computed ordered live)
  ]
