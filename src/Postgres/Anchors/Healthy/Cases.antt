-- ===== src/Postgres/Anchors/Healthy/Cases.antt =====
-- The calls of `seal` in packages/postgres/src/chain-anchor-sealer.ts, by what they insert.
use eventfabric.Base.{
  ℕ, suc, ◌≡◌, ◌⊎◌, inl, inr, refl, Str, Bool, true, false, Option, none, some, List, [], ◌∷◌, All,
  arith, ok, Result-cases, Bool-cases, Option-cases, str_eq, str_eq→eq, str_eq_refl, IsOrder,
}
use eventfabric.Core.Integrity.HashChain.{AnchorMember, compute_anchor_hash}
use eventfabric.Postgres.EventStore.Tables.{Backend, StreamVersion, EventRow}
use eventfabric.Postgres.Anchors.Tables.{
  Anchor, AnchorDb, anchors_of, last_of, live_hash, member_stream, chained_heads, member_before,
}
use eventfabric.Postgres.Anchors.Seal.{
  has_anchor, last_seq, previous_anchor_hash, delta, with_anchor, insert_anchor, seal_members, seal,
}
use eventfabric.Postgres.Anchors.Healthy.{HeadIsLive}

-- The order of the members, where that of the texts is a linear order.
pub record IsTextOrder (text_before : Str → Str → Bool) : Type 0 where
  pub total : (s t : Str) → text_before s t ≡ false → text_before t s ≡ true
  pub trans :
      (s t u : Str) → text_before s t ≡ true → text_before t u ≡ true → text_before s u ≡ true
  pub antisym : (s t : Str) → text_before s t ≡ true → text_before t s ≡ true → s ≡ t

module _ (text_before : Str → Str → Bool) (order : IsTextOrder text_before) where
  pub member_before-IsOrder : IsOrder (member_before text_before)
  member_before-IsOrder = record {
    total = λ m n h. ground (
      arith,
      str_eq→eq m.aggregate_name n.aggregate_name,
      str_eq→eq n.aggregate_name m.aggregate_name,
      str_eq_refl m.aggregate_name,
      order.total m.aggregate_name n.aggregate_name,
      order.total m.aggregate_id n.aggregate_id,
    );
    trans = λ m n k h g. ground (
      arith,
      str_eq→eq m.aggregate_name n.aggregate_name,
      str_eq→eq n.aggregate_name k.aggregate_name,
      str_eq→eq m.aggregate_name k.aggregate_name,
      str_eq_refl n.aggregate_name,
      order.trans m.aggregate_name n.aggregate_name k.aggregate_name,
      order.trans m.aggregate_id n.aggregate_id k.aggregate_id,
      order.antisym m.aggregate_name n.aggregate_name,
    );
  }

module _ {P : Type 0} where
  -- The heads of a tenant that the query gives are those of events.
  pub chained_heads-live :
      (tenant : Str) (events : List (EventRow P)) (vs : List StreamVersion)
      → All (HeadIsLive events) vs
      → All
          (λ m. live_hash (member_stream tenant m) m.version events ≡ some (some m.head_hash))
          (chained_heads tenant vs)
  unfolding chained_heads
  chained_heads-live tenant events [] h = tt
  chained_heads-live tenant events (v ∷ vs) h =
      let later = chained_heads-live tenant events vs h.1 in
      elim (Option-cases v.head_hash) [
        | inl unchained ↦ rw (unchained, chained_heads) later
        | inr (head, e) ↦ elim (Bool-cases (str_eq v.stream.tenant_id tenant)) [
          | inr f ↦ rw (e, f, chained_heads) later
          | inl t ↦
              rw (e, t, chained_heads)
                (rw (← str_eq→eq v.stream.tenant_id tenant t) (h.0 head e), later)
        ]
      ]

module _ {P : Type 0} (backend : Backend P) (secret : Str) (text_before : Str → Str → Bool) where
  abbrev IsInserted : Str → ℕ → Str → List AnchorMember → AnchorDb P → AnchorDb P → Type 0
  IsInserted tenant seq prev ms st st' =
      (hash : Str) × (compute_anchor_hash backend.host secret prev ms ≡ ok hash)
      × (st' ≡ with_anchor backend secret text_before tenant seq prev hash ms st)

  insert_anchor-cases :
      (tenant : Str) (seq : ℕ) (prev hash : Str) (ms : List AnchorMember) (st : AnchorDb P)
      → ((insert_anchor backend secret text_before tenant seq prev hash ms st).1 ≡ st)
        ⊎ ((insert_anchor backend secret text_before tenant seq prev hash ms st).1
            ≡ with_anchor backend secret text_before tenant seq prev hash ms st)
  unfolding insert_anchor
  insert_anchor-cases tenant seq prev hash ms st =
      elim (Bool-cases (has_anchor tenant seq st.anchors)) [
        | inl t ↦ inl (ground (arith, t))
        | inr f ↦ inr (ground (arith, f))
      ]

  seal_members-cases :
      (tenant : Str) (last : Option Anchor) (prev : Str) (ms : List AnchorMember) (st : AnchorDb P)
      → ((seal_members backend secret text_before tenant last prev ms st).1 ≡ st)
        ⊎ IsInserted tenant
            (suc (last_seq last))
            prev
            ms
            st
            (seal_members backend secret text_before tenant last prev ms st).1
  unfolding seal_members
  seal_members-cases tenant last prev [] st = inl refl
  seal_members-cases tenant last prev (m ∷ ms) st =
      elim (Result-cases (compute_anchor_hash backend.host secret prev (m ∷ ms))) [
        | inr (x, e) ↦ inl (ground (arith, e))
        | inl (hash, e) ↦
            elim (insert_anchor-cases tenant (suc (last_seq last)) prev hash (m ∷ ms) st) [
              | inl same ↦ inl (ground (arith, e, same))
              | inr done ↦ inr (hash, e, ground (arith, e, done))
            ]
      ]

  -- A call of `seal` leaves the tables, or inserts an anchor over the delta.
  pub seal-cases :
      (tenant : Str) (st : AnchorDb P)
      → ((seal backend secret text_before tenant st).1 ≡ st)
        ⊎ ((prev : Str) × (previous_anchor_hash backend secret text_before tenant
                (last_of none (anchors_of tenant st.anchors))
              ≡ ok prev)
            × IsInserted tenant
                (suc (last_seq (last_of none (anchors_of tenant st.anchors))))
                prev
                (delta backend secret text_before tenant st)
                st
                (seal backend secret text_before tenant st).1)
  unfolding seal
  seal-cases tenant st =
      let last = last_of none (anchors_of tenant st.anchors) in
      elim (Result-cases (previous_anchor_hash backend secret text_before tenant last)) [
        | inr (x, e) ↦ inl (ground (arith, e))
        | inl (prev, e) ↦
            elim (seal_members-cases tenant last prev (delta backend secret text_before tenant st)
              st) [
                | inl same ↦ inl (ground (arith, e, same))
                | inr (hash, h, done) ↦ inr (prev, e, (hash, h, ground (arith, e, done)))
              ]
      ]
