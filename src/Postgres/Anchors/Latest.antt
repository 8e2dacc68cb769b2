-- ===== src/Postgres/Anchors/Latest.antt =====
-- The latest sealed heads, as the queries of packages/postgres/src/chain-anchor-sealer.ts order
-- them.
use eventfabric.Base.{
  ◌<◌, ◌≡◌, ◌⊎◌, inl, inr, subst, Str, Bool, true, List, Memᴰ, keep, All-map, All-Memᴰ, Memᴰ-All,
  Memᴰ-keep, arith, str_eq→eq, str_eq_refl, order_by, distinct_on, distinct_on-first, IsOrder,
  order_by-All, order_by-Ordered, order_by-Memᴰ, distinct_on-All, keep_passing,
}
use eventfabric.Postgres.Anchors.Tables.{
  SealedHead, is_head_of, same_columns, sealed_before, latest_sealed,
}
use eventfabric.Postgres.Anchors.Healthy.Cases.{IsTextOrder}

module _ (text_before : Str → Str → Bool) (order : IsTextOrder text_before) where
  same_columns_refl : (r : SealedHead) → same_columns text_before r r ≡ true
  same_columns_refl r =
      ground (arith, str_eq_refl r.member.aggregate_name, str_eq_refl r.member.aggregate_id)

  same_columns_trans :
      (r q k : SealedHead)
      → same_columns text_before r q ≡ true
      → same_columns text_before q k ≡ true
      → same_columns text_before r k ≡ true
  same_columns_trans r q k h g = ground (
    arith,
    str_eq→eq r.member.aggregate_name q.member.aggregate_name,
    str_eq→eq r.member.aggregate_id q.member.aggregate_id,
  )

  sealed_before-IsOrder : IsOrder (sealed_before text_before)
  sealed_before-IsOrder = record {
    total = λ m n h. ground (
      arith,
      str_eq→eq m.member.aggregate_name n.member.aggregate_name,
      str_eq→eq n.member.aggregate_name m.member.aggregate_name,
      str_eq→eq m.member.aggregate_id n.member.aggregate_id,
      str_eq→eq n.member.aggregate_id m.member.aggregate_id,
      str_eq_refl m.member.aggregate_name,
      str_eq_refl m.member.aggregate_id,
      order.total m.member.aggregate_name n.member.aggregate_name,
      order.total m.member.aggregate_id n.member.aggregate_id,
    );
    trans = λ m n k h g. ground (
      arith,
      str_eq→eq m.member.aggregate_name n.member.aggregate_name,
      str_eq→eq n.member.aggregate_name k.member.aggregate_name,
      str_eq→eq m.member.aggregate_name k.member.aggregate_name,
      str_eq→eq m.member.aggregate_id n.member.aggregate_id,
      str_eq→eq n.member.aggregate_id k.member.aggregate_id,
      str_eq→eq m.member.aggregate_id k.member.aggregate_id,
      str_eq_refl n.member.aggregate_name,
      str_eq_refl n.member.aggregate_id,
      order.trans m.member.aggregate_name n.member.aggregate_name k.member.aggregate_name,
      order.trans m.member.aggregate_id n.member.aggregate_id k.member.aggregate_id,
      order.antisym m.member.aggregate_name n.member.aggregate_name,
      order.antisym m.member.aggregate_id n.member.aggregate_id,
    );
  }

module _ (text_before : Str → Str → Bool) (order : IsTextOrder text_before) (tenant : Str) where
  -- A sealed head of the tenant with the largest number of its stream; any other of the stream has
  -- a smaller number.
  pub record IsLatest (rows : List SealedHead) (r : SealedHead) : Type 0 where
    pub member : Memᴰ r rows
    pub of_tenant : r.tenant_id ≡ tenant
    pub largest :
        (q : SealedHead)
        → Memᴰ q rows
        → q.tenant_id ≡ tenant
        → same_columns text_before q r ≡ true
        → (q ≡ r) ⊎ (q.anchor_seq < r.anchor_seq)

  -- The query gives the latest sealed head of each stream.
  pub latest_sealed-IsLatest :
      (rows : List SealedHead) (r : SealedHead)
      → IsLatest rows r
      → Memᴰ r (latest_sealed text_before tenant rows)
  unfolding latest_sealed
  latest_sealed-IsLatest rows r l =
      let same = same_columns text_before in
      let kept = keep (is_head_of text_before tenant) rows in
      let ordered = order_by (sealed_before text_before) kept in
      let here : Memᴰ r ordered = order_by-Memᴰ (sealed_before text_before) kept (
        Memᴰ-keep (is_head_of text_before tenant) rows l.member
          (rw l.of_tenant (str_eq_refl tenant))) in
      let (q, found, like, earlier) =
        distinct_on-first same (sealed_before text_before) (same_columns_refl text_before order)
          (same_columns_trans text_before order) ordered
          (order_by-Ordered (sealed_before text_before) (sealed_before-IsOrder text_before order)
            kept)
          r here in
      let origin : Memᴰ q rows × (q.tenant_id ≡ tenant) =
        All-Memᴰ (λ x. Memᴰ x rows × (x.tenant_id ≡ tenant)) (distinct_on same ordered)
          (distinct_on-All same _ ordered (
            order_by-All (sealed_before text_before) _ kept (
              All-map _ _ (λ x (m, t). (m, str_eq→eq x.tenant_id tenant t)) kept
                (keep_passing (λ x. Memᴰ x rows) (is_head_of text_before tenant) rows
                  (Memᴰ-All (λ x. Memᴰ x rows) rows (λ x m. m))))))
          found in
      elim (l.largest q origin.0 origin.1 like) [
        | inl e ↦ subst (λ x. Memᴰ x (distinct_on same ordered)) e found
        | inr smaller ↦ elim earlier [
          | inl e ↦ subst (λ x. Memᴰ x (distinct_on same ordered)) e found
          | inr before ↦ absurd (ground (arith, like))
        ]
      ]
