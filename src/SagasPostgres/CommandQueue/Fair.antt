-- ===== src/SagasPostgres/CommandQueue/Fair.antt =====
-- The claim strategy `fair-by-tenant` of packages/sagas-postgres/src/pg-saga-command-queue.ts.
use eventfabric.Base.{
  ℕ, ◌≤◌, ◌==◌, leb→le, ◌≡◌, inl, inr, refl, sym, ap, subst, Bool, true, false, not, List, [], ◌∷◌,
  Memᴰ, Memᴰ-keep, All, All-Memᴰ, Memᴰ-All, keep, keep_passing, All-map, length-keep-le, take-all,
  All-take, length, arith, str_eq→eq, str_eq_refl, order_by, order_by-All, order_by-Ordered,
  order_by-Memᴰ, length-order_by, IsOrder, distinct_on-All, distinct_on-first, distinct_on_unique,
  Bool-cases,
}
use eventfabric.SagasPostgres.CommandQueue.{
  PgQueueRow, fair_by_tenant, eligible, by_id, same_tenant, candidates, has_id, claimed_rows,
}

module _ {C : Type 0} where
  -- The id is the primary key.
  abbrev pub HasIds : List (PgQueueRow C) → Type 0
  HasIds rows = (r q : PgQueueRow C) → Memᴰ r rows → Memᴰ q rows → r.id ≡ q.id → r ≡ q

  has_id-Memᴰ :
      (rs : List (PgQueueRow C)) (n : ℕ)
      → has_id rs n ≡ true
      → (r : PgQueueRow C) × Memᴰ r rs × (r.id ≡ n)
  has_id-Memᴰ [] n h = cc
  has_id-Memᴰ (r ∷ rs) n h = elim (Bool-cases (r.id == n)) [
    | inl t ↦ (r, Memᴰ.head refl, ground (arith, t))
    | inr f ↦ let (q, i, e) = has_id-Memᴰ rs n (ground (arith, f)) in (q, Memᴰ.tail i, e)
  ]

  Memᴰ-has_id : (rs : List (PgQueueRow C)) {r : PgQueueRow C} → Memᴰ r rs → has_id rs r.id ≡ true
  Memᴰ-has_id [] i = elim i [ ]
  Memᴰ-has_id (q ∷ rs) {r} (Memᴰ.head e) =
      let same : q.id ≡ r.id = ap (λ x. x.id) (sym e) in ground arith
  Memᴰ-has_id (q ∷ rs) (Memᴰ.tail i) = ground (arith, Memᴰ-has_id rs i)

  by_id-IsOrder : IsOrder (by_id {C = C})
  by_id-IsOrder = record { total = λ r q h. ground arith; trans = λ r q k h g. ground arith }

  -- A candidate is an eligible row of the table.
  candidates-All :
      (now : ℕ) (rows : List (PgQueueRow C))
      → All (λ r. Memᴰ r rows × (eligible now r ≡ true)) (candidates now rows)
  unfolding candidates
  candidates-All now rows = distinct_on-All same_tenant _ _ (
      order_by-All by_id _ _ (
        keep_passing (λ r. Memᴰ r rows) (eligible now) rows
          (Memᴰ-All (λ r. Memᴰ r rows) rows (λ r i. i))))

  -- Each tenant with an eligible row has its oldest as a candidate.
  candidates-oldest :
      (now : ℕ) (rows : List (PgQueueRow C)) (r : PgQueueRow C)
      → Memᴰ r rows
      → eligible now r ≡ true
      → (q : PgQueueRow C) × Memᴰ q (candidates now rows)
        × (q.tenant_id ≡ r.tenant_id)
        × (q.id ≤ r.id)
  unfolding candidates
  candidates-oldest now rows r i e =
      let kept = keep (eligible now) rows in
      let (q, found, like, earlier) =
        distinct_on-first same_tenant by_id (λ x. str_eq_refl x.tenant_id)
          (λ x y z h g. rw (str_eq→eq x.tenant_id y.tenant_id h) g) (order_by by_id kept)
          (order_by-Ordered by_id by_id-IsOrder kept) r
          (order_by-Memᴰ by_id kept (Memᴰ-keep (eligible now) rows i e)) in
      (
        q,
        found,
        str_eq→eq q.tenant_id r.tenant_id like,
        elim earlier [
          | inl same ↦ let e = ap (λ x. x.id) same in omega (arith, e)
          | inr before ↦ leb→le q.id r.id before
        ],
      )

  -- A claimed row is a candidate, and is not locked.
  claimed-candidate :
      (is_locked : PgQueueRow C → Bool) (now n : ℕ) (rows : List (PgQueueRow C))
      → HasIds rows
      → All
          (λ r. Memᴰ r (candidates now rows) × (is_locked r ≡ false))
          (claimed_rows fair_by_tenant is_locked now n rows)
  unfolding claimed_rows
  claimed-candidate is_locked now n rows ids =
      let cs = candidates now rows in
      let candidate = λ (r : PgQueueRow C) (h : Memᴰ r rows × (has_id cs r.id ≡ true)).
        let (q, j, e) = has_id-Memᴰ cs r.id h.1 in
        let same = ids q r (All-Memᴰ _ cs (candidates-All now rows) j).0 h.0 e in
        subst (λ x. Memᴰ x cs) same j in
      All-take _ n _ (
        All-map _ _ (λ r (j, free). (j, ground (arith, free))) _
          (keep_passing (λ r. Memᴰ r cs) (λ row. not (is_locked row)) _
            (order_by-All by_id _ _ (
              All-map _ _ candidate _ (
                keep_passing (λ r. Memᴰ r rows) (λ row. has_id cs row.id) rows
                  (Memᴰ-All (λ r. Memᴰ r rows) rows (λ r i. i)))))))

  candidates-one :
      (now : ℕ) (rows : List (PgQueueRow C)) {r q : PgQueueRow C}
      → Memᴰ r (candidates now rows)
      → Memᴰ q (candidates now rows)
      → r.tenant_id ≡ q.tenant_id
      → r ≡ q
  unfolding candidates
  candidates-one now rows {r} {q} i j same =
      distinct_on_unique same_tenant by_id
        (λ x y h. rw (str_eq→eq x.tenant_id y.tenant_id h) (str_eq_refl y.tenant_id))
        (order_by by_id (keep (eligible now) rows)) i j (rw same (str_eq_refl q.tenant_id))

  claimed-oldest :
      (is_locked : PgQueueRow C → Bool) (now n : ℕ) (rows : List (PgQueueRow C))
      → ((r : PgQueueRow C) → is_locked r ≡ false)
      → length (keep (λ row. has_id (candidates now rows) row.id) rows) ≤ n
      → (r : PgQueueRow C) → Memᴰ r rows
      → eligible now r ≡ true
      → (q : PgQueueRow C) × Memᴰ q (claimed_rows fair_by_tenant is_locked now n rows)
        × (q.tenant_id ≡ r.tenant_id)
        × (q.id ≤ r.id)
  unfolding claimed_rows
  claimed-oldest is_locked now n rows free room r i e =
      let cs = candidates now rows in
      let (q, j, same, older) = candidates-oldest now rows r i e in
      let here = (All-Memᴰ _ cs (candidates-All now rows) j).0 in
      let mine = keep (λ row. has_id cs row.id) rows in
      let ordered = order_by by_id mine in
      let open_rows = keep (λ row. not (is_locked row)) ordered in
      let found : Memᴰ q open_rows =
        Memᴰ-keep (λ row. not (is_locked row)) ordered
          (order_by-Memᴰ by_id mine
            (Memᴰ-keep (λ row. has_id cs row.id) rows here (Memᴰ-has_id cs j)))
          (rw (free q) refl) in
      let fits : length open_rows ≤ n = omega (
        arith,
        length-keep-le {0} (λ row. not (is_locked row)) ordered,
        length-order_by {0} by_id mine,
        room,
      ) in
      (q, rw (take-all n open_rows fits) found, same, older)

  -- In a table with unique ids, a batch that is claimed by fair-by-tenant has eligible rows that
  -- nobody else has locked, at most one of each tenant. Where nothing is locked and the batch size
  -- is at least the number of candidates, a tenant with an eligible row has a row in the batch that
  -- is as old or older, however many rows the other tenants have.
  pub claimed_rows-fair :
      (is_locked : PgQueueRow C → Bool) (now n : ℕ) (rows : List (PgQueueRow C))
      → HasIds rows
      → All
          (λ r. Memᴰ r rows × (eligible now r ≡ true) × (is_locked r ≡ false))
          (claimed_rows fair_by_tenant is_locked now n rows)
        × ((r q : PgQueueRow C)
            → Memᴰ r (claimed_rows fair_by_tenant is_locked now n rows)
            → Memᴰ q (claimed_rows fair_by_tenant is_locked now n rows)
            → r.tenant_id ≡ q.tenant_id
            → r ≡ q)
        × (((r : PgQueueRow C) → is_locked r ≡ false)
            → length (keep (λ row. has_id (candidates now rows) row.id) rows) ≤ n
            → (r : PgQueueRow C) → Memᴰ r rows
            → eligible now r ≡ true
            → (q : PgQueueRow C) × Memᴰ q (claimed_rows fair_by_tenant is_locked now n rows)
              × (q.tenant_id ≡ r.tenant_id)
              × (q.id ≤ r.id))
  claimed_rows-fair is_locked now n rows ids =
      let cs = candidates now rows in
      let chosen = claimed_rows fair_by_tenant is_locked now n rows in
      let all = claimed-candidate is_locked now n rows ids in
      (
        All-map _ _
            (λ r (j, free).
              let (i, fits) = All-Memᴰ _ cs (candidates-All now rows) j in (i, fits, free))
            chosen all,
        λ r q i j same.
            candidates-one now rows (All-Memᴰ _ chosen all i).0 (All-Memᴰ _ chosen all j).0 same,
        claimed-oldest is_locked now n rows,
      )
