-- ===== src/Postgres/Anchors/Covered.antt =====
-- The delta of `seal` in packages/postgres/src/chain-anchor-sealer.ts.
use eventfabric.Base.{
  ℕ, ◌≤◌, ◌≡◌, ◌≢◌, ◌⊎◌, inl, inr, refl, ap, Str, Bool, false, some, List, [], ◌∷◌, ◌++◌, Memᴰ, All,
  All-map, All-Memᴰ, Memᴰ-All, Memᴰ-keep, Memᴰ-append_left, Memᴰ-append_right, arith, ok,
  Bool-cases, Option-cases, str_eq, str_eq→eq, Dict, lookup, insert, lookup-insert, order_by-Memᴰ,
  order_by-All, distinct_on-All, keep_passing,
}
use eventfabric.Core.Integrity.HashChain.{AnchorMember}
use eventfabric.Postgres.EventStore.Tables.{Backend}
use eventfabric.Postgres.Anchors.Tables.{
  SealedHead, AnchorDb, chained_heads, latest_sealed, heads_in_order, last_versions, stream_key,
  has_advanced, is_head_of, member_before, sealed_before, same_columns,
}
use eventfabric.Postgres.Anchors.Seal.{SealResult, delta, seal, sealed_rows}
use eventfabric.Postgres.Anchors.Inserts.{seal-Inserts}
use eventfabric.Postgres.Anchors.Healthy.Cases.{IsTextOrder}
use eventfabric.Postgres.Anchors.Alarms.{Reach, no_rows, no_rows-IsHealthy, Reach-IsHealthy}
use eventfabric.Core.Projections.Outbox.{Outbox}

-- A text has no character 0, as in Postgres.
abbrev pub IsStorable : Str → Type 0
IsStorable = All (λ c. c ≢ 0)

split_first_null :
    (a b x y : Str) → IsStorable a → IsStorable b → a ++ (0 ∷ x) ≡ b ++ (0 ∷ y) → (a ≡ b) × (x ≡ y)
split_first_null [] [] x y ha hb e = ground arith
split_first_null [] (c ∷ b) x y ha hb e = ground arith
split_first_null (c ∷ a) [] x y ha hb e = ground arith
split_first_null (c ∷ a) (d ∷ b) x y ha hb e = ground (arith, split_first_null a b x y ha.1 hb.1)

-- An entry of the map is that of a row.
lookup-last_versions :
    (k : Str) (d : Dict ℕ) (rs : List SealedHead) {v : ℕ}
    → lookup k (last_versions d rs) ≡ some v
    → (lookup k d ≡ some v)
      ⊎ ((r : SealedHead) × Memᴰ r rs × (stream_key r.member ≡ k) × (r.member.version ≡ v))
unfolding last_versions
lookup-last_versions k d [] e = inl e
lookup-last_versions k d (r ∷ rs) {v} e =
    elim (lookup-last_versions k (insert (stream_key r.member) r.member.version d) rs e) [
      | inr (q, m, key, version) ↦ inr (q, Memᴰ.tail m, key, version)
      | inl found ↦
          let law = lookup-insert (stream_key r.member) k r.member.version d in
          elim (Bool-cases (str_eq (stream_key r.member) k)) [
            | inl t ↦
                let version : r.member.version ≡ v = ground (arith, t, law, found) in
                inr (r, Memᴰ.head refl, str_eq→eq (stream_key r.member) k t, version)
            | inr f ↦ inl (ground (arith, f, law, found))
          ]
    ]

-- A head at its version or at a later one is sealed for the tenant.
abbrev pub IsCovered : Str → List SealedHead → AnchorMember → Type 0
IsCovered tenant rows m =
    (r : SealedHead) × Memᴰ r rows
    × (r.tenant_id ≡ tenant)
    × (r.member.aggregate_name ≡ m.aggregate_name)
    × (r.member.aggregate_id ≡ m.aggregate_id)
    × (m.version ≤ r.member.version)

module _ {P : Type 0} (backend : Backend P) (secret : Str) (text_before : Str → Str → Bool)
    (tenant : Str) where
  latest_sealed-origin :
      (rows : List SealedHead)
      → All (λ r. Memᴰ r rows × (r.tenant_id ≡ tenant)) (latest_sealed text_before tenant rows)
  unfolding latest_sealed
  latest_sealed-origin rows = distinct_on-All (same_columns text_before) _ _ (
      order_by-All (sealed_before text_before) _ _ (
        All-map _ _ (λ r (m, t). (m, str_eq→eq r.tenant_id tenant t)) _
          (keep_passing (λ r. Memᴰ r rows) (is_head_of text_before tenant) rows
            (Memᴰ-All (λ r. Memᴰ r rows) rows (λ r m. m)))))

  -- What has not advanced has been sealed.
  old-IsCovered :
      (rows : List SealedHead) (m : AnchorMember)
      → All (λ r. IsStorable r.member.aggregate_name) rows
      → IsStorable m.aggregate_name
      → has_advanced (last_versions [] (latest_sealed text_before tenant rows)) m ≡ false
      → IsCovered tenant rows m
  unfolding lookup
  old-IsCovered rows m stored name e =
      let d = last_versions [] (latest_sealed text_before tenant rows) in
      elim (Option-cases (lookup (stream_key m) d)) [
        | inl missing ↦ absurd (ground (arith, missing))
        | inr (v, found) ↦
            let reached : m.version ≤ v = ground (arith, found) in
            elim (lookup-last_versions (stream_key m) [] (latest_sealed text_before tenant rows)
              found) [
                | inl none_given ↦ cc
                | inr (r, i, key, version) ↦
                    let (here, of_tenant) = All-Memᴰ _ _ (latest_sealed-origin rows) i in
                    let parts =
                      split_first_null r.member.aggregate_name m.aggregate_name
                        r.member.aggregate_id m.aggregate_id (All-Memᴰ _ rows stored here) name
                        key in
                    (r, here, of_tenant, parts.0, parts.1, omega (arith, version))
              ]
      ]

  sealed_rows-Memᴰ :
      (seq : ℕ) (m : AnchorMember) (ms : List AnchorMember)
      → Memᴰ m ms
      → Memᴰ
          (record { tenant_id = tenant; anchor_seq = seq; member = m })
          (sealed_rows tenant seq ms)
  sealed_rows-Memᴰ seq m [] i = elim i [ ]
  sealed_rows-Memᴰ seq m (x ∷ xs) (Memᴰ.head e) =
      Memᴰ.head (ap (λ y. record { tenant_id = tenant; anchor_seq = seq; member = y }) e)
  sealed_rows-Memᴰ seq m (x ∷ xs) (Memᴰ.tail i) = Memᴰ.tail (sealed_rows-Memᴰ seq m xs i)

  -- Behind a seal of the delta a head that has advanced is sealed, and the others were.
  delta-IsCovered :
      (st : AnchorDb P) (rows : List SealedHead) (m : AnchorMember)
      → All (λ r. IsStorable r.member.aggregate_name) st.members
      → IsStorable m.aggregate_name
      → Memᴰ m (chained_heads tenant st.db.stream_versions)
      → ((x : AnchorMember)
          → Memᴰ x (delta backend secret text_before tenant st)
          → (seq : ℕ) × Memᴰ (record { tenant_id = tenant; anchor_seq = seq; member = x }) rows)
      → ((r : SealedHead) → Memᴰ r st.members → Memᴰ r rows)
      → IsCovered tenant rows m
  unfolding delta heads_in_order
  delta-IsCovered st rows m stored name i new old =
      let d = last_versions [] (latest_sealed text_before tenant st.members) in
      elim (Bool-cases (has_advanced d m)) [
        | inl t ↦
            let (seq, row) = new m (
              Memᴰ-keep (has_advanced d) _
                (order_by-Memᴰ (member_before text_before)
                  (chained_heads tenant st.db.stream_versions) i)
                t) in
            (_, row, refl, refl, refl, omega arith)
        | inr f ↦
            let (r, here, own, name_is, id_is, reached) =
              old-IsCovered st.members m stored name f in
            (r, old r here, own, name_is, id_is, reached)
      ]

module _ {P : Type 0} (backend : Backend P) (secret : Str) (text_before : Str → Str → Bool)
    (order : IsTextOrder text_before) (outbox : Outbox) (position id : ℕ) where
  -- Behind any sequence of appends to streams that are chained or never were, of dismissals,
  -- seals and rounds of the runner from empty tables, where texts are ordered linearly, a seal
  -- of a tenant returns, and then each chained stream of the tenant has a sealed head of its
  -- version or of a later one, if the names of the sealed and of the chained aggregates have no
  -- character 0.
  pub seal-IsCovered :
      {st : AnchorDb P}
      → Reach backend secret text_before (no_rows outbox position id) st
      → (tenant : Str) → All (λ r. IsStorable r.member.aggregate_name) st.members
      → All (λ m. IsStorable m.aggregate_name) (chained_heads tenant st.db.stream_versions)
      → ((r : SealResult) × ((seal backend secret text_before tenant st).0 ≡ ok r))
        × All
            (IsCovered tenant (seal backend secret text_before tenant st).1.members)
            (chained_heads tenant st.db.stream_versions)
  seal-IsCovered {st} reach tenant stored names =
      let h =
        Reach-IsHealthy backend secret text_before order
          (no_rows-IsHealthy backend secret text_before order outbox position id) reach in
      let (r, returned, inserted) = seal-Inserts backend secret text_before tenant st h in
      let heads = chained_heads tenant st.db.stream_versions in
      let ms = delta backend secret text_before tenant st in
      let covered =
        λ (rows : List SealedHead)
            (new : (x : AnchorMember)
              → Memᴰ x ms
              → (seq : ℕ) × Memᴰ (record { tenant_id = tenant; anchor_seq = seq; member = x }) rows)
            (old : (q : SealedHead) → Memᴰ q st.members → Memᴰ q rows).
          Memᴰ-All (IsCovered tenant rows) heads (λ m i.
            delta-IsCovered backend secret text_before tenant st rows m stored
              (All-Memᴰ (λ x. IsStorable x.aggregate_name) heads names i) i new old) in
      (
        (r, returned),
        elim inserted [
          | inl (nothing, same) ↦
              rw same (covered st.members (λ x i. elim (rw nothing at i) [ ]) (λ q i. i))
          | inr (seq, prev, hash, done) ↦ rw done (
              covered (st.members ++ sealed_rows tenant seq ms)
                (λ x i. (
                  seq,
                  Memᴰ-append_right st.members (sealed_rows tenant seq ms)
                      (sealed_rows-Memᴰ backend secret text_before tenant seq x ms i),
                ))
                (λ q i. Memᴰ-append_left st.members (sealed_rows tenant seq ms) i))
        ],
      )
