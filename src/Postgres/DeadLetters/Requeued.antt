-- ===== src/Postgres/DeadLetters/Requeued.antt =====
-- What requeueRange of packages/postgres/src/outbox/pg-dlq-service.ts leaves in the two tables.
use eventfabric.Base.{
  ℕ, ◌≤◌, Str, true, false, not, ◌≡◌, refl, ap, List, [], ◌∷◌, str_eq_refl, str_eq→eq, keep,
  keep_passing, All, All-map, Memᴰ-All, sort_by-All, count, sort_by, sort_by-Memᴰ, Memᴰ, Memᴰ-keep,
  kept_passing, arith, Bool-cases, inl, inr, subst,
}
use eventfabric.Postgres.DeadLetters.{
  DlqRow, DlqTables, is_item, has_position, requeue, requeue_each, is_between, requeue_range,
}
use eventfabric.Postgres.DeadLetters.Requeue.{
  HasDlqIds, IsQueued, requeue-le, requeue-dead_letters, is_item-id, requeue-IsQueued, IsSafe,
  requeue-HasDlqIds, requeue-IsSafe,
}

requeue_each-le :
    (tenant : Str) (rs : List DlqRow) (n p : ℕ) (t : DlqTables)
    → count (has_position p) t.outbox ≤ count (has_position p) (requeue_each tenant rs n t).1.outbox
unfolding requeue_each
requeue_each-le tenant [] n p t = omega arith
requeue_each-le tenant (r ∷ rs) n p t =
    omega
      (arith, requeue-le tenant r.id p t, requeue_each-le tenant rs _ p (requeue tenant r.id t).1)

requeue_each-IsQueued :
    (tenant : Str) (rs : List DlqRow) (n : ℕ) (r : DlqRow) (t : DlqTables)
    → HasDlqIds t.dead_letters
    → r.tenant_id ≡ tenant
    → Memᴰ r rs
    → IsSafe r t
    → IsQueued r.global_position (requeue_each tenant rs n t).1
unfolding requeue_each
requeue_each-IsQueued tenant [] n r t ids mine i safe = elim i [ ]
requeue_each-IsQueued tenant (x ∷ rs) n r t ids mine (Memᴰ.head d) (inr q) = omega (
  arith,
  requeue_each-le tenant rs _ r.global_position (requeue tenant x.id t).1,
  requeue-le tenant x.id r.global_position t,
  q,
)
requeue_each-IsQueued tenant (x ∷ rs) n r t ids mine (Memᴰ.head d) (inl i) =
    let e : is_item tenant x.id r ≡ true =
      ground (arith, mine, ap (λ y. y.id) d, str_eq_refl tenant) in
    omega (
      arith,
      requeue_each-le tenant rs _ r.global_position (requeue tenant x.id t).1,
      requeue-IsQueued tenant x.id r t ids i e,
    )
requeue_each-IsQueued tenant (x ∷ rs) n r t ids mine (Memᴰ.tail j) safe =
    requeue_each-IsQueued tenant rs _ r (requeue tenant x.id t).1
      (requeue-HasDlqIds tenant x.id t ids) mine j (requeue-IsSafe tenant x.id r t ids safe)

-- What is left was there, and is none of the rows that were to be requeued.
requeue_each-left :
    (tenant : Str) (rs : List DlqRow) (n : ℕ) (r : DlqRow) (t : DlqTables)
    → Memᴰ r (requeue_each tenant rs n t).1.dead_letters
    → Memᴰ r t.dead_letters × ((x : DlqRow) → Memᴰ x rs → is_item tenant x.id r ≡ false)
unfolding requeue_each
requeue_each-left tenant [] n r t i = (i, λ x j. elim j [ ])
requeue_each-left tenant (y ∷ rs) n r t i =
    let (there, others) = requeue_each-left tenant rs _ r (requeue tenant y.id t).1 i in
    let (here, passed) =
      kept_passing (λ q. not (is_item tenant y.id q)) t.dead_letters
        (subst (λ l. Memᴰ r l) (requeue-dead_letters tenant y.id t) there) in
    (here, step passed others)
  where
    step :
        not (is_item tenant y.id r) ≡ true
        → ((x : DlqRow) → Memᴰ x rs → is_item tenant x.id r ≡ false)
        → (x : DlqRow) → Memᴰ x (y ∷ rs)
        → is_item tenant x.id r ≡ false
    step passed others x (Memᴰ.head e) = ground (arith, ap (λ z. z.id) e)
    step passed others x (Memᴰ.tail j) = others x j

requeue_each-kept :
    (tenant : Str) (rs : List DlqRow) (n : ℕ) (r : DlqRow) (t : DlqTables)
    → Memᴰ r t.dead_letters
    → All (λ x. is_item tenant x.id r ≡ false) rs
    → Memᴰ r (requeue_each tenant rs n t).1.dead_letters
unfolding requeue_each
requeue_each-kept tenant [] n r t i h = i
requeue_each-kept tenant (x ∷ rs) n r t i (h, hs) =
    requeue_each-kept tenant rs _ r (requeue tenant x.id t).1
      (rw (requeue-dead_letters tenant x.id t)
        (Memᴰ-keep (λ q. not (is_item tenant x.id q)) t.dead_letters i (rw h refl)))
      hs

is_between-tenant :
    (tenant : Str) (from to : ℕ) (r : DlqRow)
    → is_between tenant from to r ≡ true
    → r.tenant_id ≡ tenant
is_between-tenant tenant from to r h = ground (arith, str_eq→eq r.tenant_id tenant)

-- Where the dead letters have unique ids: behind requeue_range, every dead letter of the tenant in
-- the range has an entry of its position in the outbox and is no dead letter any more, and the
-- other dead letters are there as they were.
pub requeue_range-IsQueued :
    (tenant : Str) (from to : ℕ) (t : DlqTables)
    → HasDlqIds t.dead_letters
    → let after = (requeue_range tenant from to t).1 in
      ((r : DlqRow)
        → Memᴰ r t.dead_letters
        → is_between tenant from to r ≡ true
        → IsQueued r.global_position after)
      × ((r : DlqRow)
          → Memᴰ r after.dead_letters
          → Memᴰ r t.dead_letters × (is_between tenant from to r ≡ false))
      × ((r : DlqRow)
          → Memᴰ r t.dead_letters
          → is_between tenant from to r ≡ false
          → Memᴰ r after.dead_letters)
unfolding requeue_range
requeue_range-IsQueued tenant from to t ids =
    let chosen =
      sort_by (λ (r : DlqRow). r.global_position)
        (keep (is_between tenant from to) t.dead_letters) in
    let listed : (r : DlqRow)
        → Memᴰ r t.dead_letters
        → is_between tenant from to r ≡ true
        → Memᴰ r chosen =
      λ r i h.
        sort_by-Memᴰ (λ (q : DlqRow). q.global_position) _
          (Memᴰ-keep (is_between tenant from to) t.dead_letters i h) in
    let all =
      sort_by-All (λ (q : DlqRow). q.global_position)
        (λ x. Memᴰ x t.dead_letters × (is_between tenant from to x ≡ true)) _
        (keep_passing (λ x. Memᴰ x t.dead_letters) (is_between tenant from to) t.dead_letters
          (Memᴰ-All (λ x. Memᴰ x t.dead_letters) t.dead_letters (λ x i. i))) in
    (
      λ r i h.
          requeue_each-IsQueued tenant chosen 0 r t ids (is_between-tenant tenant from to r h)
            (listed r i h) (inl i),
      λ r i. left r i listed,
      λ r i h.
          requeue_each-kept tenant chosen 0 r t i (All-map _ _ (λ x p. apart r i h x p) chosen all),
    )
  where
    apart :
        (r : DlqRow)
        → Memᴰ r t.dead_letters
        → is_between tenant from to r ≡ false
        → (x : DlqRow) → Memᴰ x t.dead_letters × (is_between tenant from to x ≡ true)
        → is_item tenant x.id r ≡ false
    apart r i h x (j, between) = elim (Bool-cases (is_item tenant x.id r)) [
      | inl e ↦
          let same = ids r x i j (is_item-id tenant x.id r e) in
          absurd (ground (arith, ap (is_between tenant from to) same))
      | inr e ↦ e
    ]

    left :
        (r : DlqRow)
        → Memᴰ r (requeue_range tenant from to t).1.dead_letters
        → ((r : DlqRow)
            → Memᴰ r t.dead_letters
            → is_between tenant from to r ≡ true
            → Memᴰ r (
                sort_by
                  (λ (r : DlqRow). r.global_position)
                  (keep (is_between tenant from to) t.dead_letters)))
        → Memᴰ r t.dead_letters × (is_between tenant from to r ≡ false)
    left r i listed =
        let (there, others) = requeue_each-left tenant _ 0 r t i in
        elim (Bool-cases (is_between tenant from to r)) [
          | inl e ↦
              let mine = is_between-tenant tenant from to r e in
              absurd (ground (arith, others r (listed r there e), str_eq_refl tenant))
          | inr e ↦ (there, e)
        ]
