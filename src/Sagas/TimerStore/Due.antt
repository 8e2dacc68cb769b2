-- ===== src/Sagas/TimerStore/Due.antt =====
-- Claiming due timers: `claimDue` of packages/sagas/src/in-memory-saga-timer-store.ts.
use eventfabric.Base.{
  ℕ, zero, suc, ◌≤◌, ◌≡◌, refl, ◌∙◌, inl, inr, true, false, List, [], ◌∷◌, map, arith, length, keep,
  take, Bool-cases, All, All-take, All-keep, Memᴰ-keep, Memᴰ, length-take-le, length-map, sort_by,
  SortedBy, sort_by-All, sort_by-SortedBy, sort_by-Memᴰ, take-SortedBy,
}
use eventfabric.Sagas.TimerStore.{
  TimerRow, TimerItem, TimerStore, pending, claimed, indexed, has_index, mark_claimed, is_due,
  item_of, due_rows, claim_due,
}

module _ {M : Type 0} where
  abbrev index_date : ℕ × TimerRow M → ℕ
  index_date p = p.1.fire_at

  has_index-Memᴰ :
      (k : ℕ) (row : TimerRow M) (l : List (ℕ × TimerRow M))
      → Memᴰ (k, row) l
      → has_index k l ≡ true
  unfolding has_index
  has_index-Memᴰ k row [] m = elim m [ ]
  has_index-Memᴰ k row ((j, r) ∷ l) (Memᴰ.head e) = ground arith
  has_index-Memᴰ k row ((j, r) ∷ l) (Memᴰ.tail m) = ground (arith, has_index-Memᴰ k row l m)

  -- What holds of the rows that are not chosen, and of every claimed one, holds of the new store.
  mark_claimed-All {κ} :
      (P : TimerRow M → Type κ) (chosen : List (ℕ × TimerRow M)) (k : ℕ) (rows : List (TimerRow M))
      → ((r : TimerRow M) → P (record r { status = claimed }))
      → ((j : ℕ) (r : TimerRow M) → Memᴰ (j, r) (indexed k rows) → has_index j chosen ≡ false → P r)
      → All P (mark_claimed k chosen rows)
  unfolding mark_claimed indexed
  mark_claimed-All P chosen k [] c f = tt
  mark_claimed-All P chosen k (r ∷ rows) c f = (
    elim (Bool-cases (has_index k chosen)) [
      | inl e ↦ rw e (c r)
      | inr e ↦ rw e (f k r (Memᴰ.head refl) e)
    ],
    mark_claimed-All P chosen (suc k) rows c (λ j s m. f j s (Memᴰ.tail m)),
  )

  All-items {κ} :
      (P : ℕ → Type κ) (l : List (ℕ × TimerRow M))
      → All (λ p. P p.1.fire_at) l
      → All (λ it. P it.fire_at) (map item_of l)
  All-items P [] h = tt
  All-items P (p ∷ l) h = (h.0, All-items P l h.1)

  SortedBy-take :
      (n : ℕ) (l : List (ℕ × TimerRow M))
      → SortedBy index_date l
      → SortedBy (λ it. it.fire_at) (map item_of (take n l))
  SortedBy-take zero l h = tt
  SortedBy-take (suc n) [] h = tt
  SortedBy-take (suc n) (p ∷ l) h =
      (All-items (λ t. p.1.fire_at ≤ t) (take n l) (All-take _ n l h.0), SortedBy-take n l h.1)

  -- What a claim owes to a row that it leaves: where the row is pending and due, the batch is full
  -- and holds no later date.
  abbrev pub Waits : ℕ → ℕ → List (TimerItem M) → TimerRow M → Type 0
  Waits now batch_size items row =
      row.status ≡ pending
      → row.fire_at ≤ now
      → All (λ it. it.fire_at ≤ row.fire_at) items × (length items ≡ batch_size)

  left-Waits :
      (now n : ℕ) (rows : TimerStore M) (j : ℕ) (r : TimerRow M)
      → Memᴰ (j, r) (indexed 0 rows)
      → has_index j (due_rows now n rows) ≡ false
      → Waits now n (map item_of (due_rows now n rows)) r
  unfolding due_rows
  left-Waits now n rows j r m e p h =
      elim (take-SortedBy index_date n sorted (sort_by-SortedBy index_date due)
        (sort_by-Memᴰ index_date due found)) [
          | inl taken ↦ cc (has_index-Memᴰ j r chosen taken, e)
          | inr (below, full) ↦
              (All-items (λ t. t ≤ r.fire_at) chosen below, length-map item_of chosen ∙ full)
        ]
    where
      due : List (ℕ × TimerRow M)
      due = keep (is_due now) (indexed 0 rows)

      sorted : List (ℕ × TimerRow M)
      sorted = sort_by index_date due

      chosen : List (ℕ × TimerRow M)
      chosen = take n sorted

      found : Memᴰ (j, r) due
      found = Memᴰ-keep (is_due now) (indexed 0 rows) m (ground arith)

  -- A round takes the earliest due timers, in the order of their dates: none is early, there are at
  -- most as many as the batch size, and a due timer stays pending only behind a full batch of
  -- timers that are no later.
  pub claim_due_lem :
      (now batch_size : ℕ) (rows : TimerStore M)
      → let (rows', items) = claim_due now batch_size rows in
        SortedBy (λ it. it.fire_at) items
        × All (λ it. it.fire_at ≤ now) items
        × (length items ≤ batch_size)
        × All (Waits now batch_size items) rows'
  unfolding claim_due due_rows
  claim_due_lem now n rows = (
    SortedBy-take n (sort_by index_date due) (sort_by-SortedBy index_date due),
    All-items (λ t. t ≤ now) chosen
        (All-take early n (sort_by index_date due) (sort_by-All index_date early due due_early)),
    rw (length-map item_of chosen) (length-take-le n (sort_by index_date due)),
    mark_claimed-All (Waits now n (map item_of chosen)) chosen 0 rows (λ r p h. cc)
        (left-Waits now n rows),
  )
    where
      due : List (ℕ × TimerRow M)
      due = keep (is_due now) (indexed 0 rows)

      chosen : List (ℕ × TimerRow M)
      chosen = take n (sort_by index_date due)

      early : ℕ × TimerRow M → Type 0
      early p = p.1.fire_at ≤ now

      due_early : All early due
      due_early = All-keep early (is_due now) (indexed 0 rows) (λ p h. ground arith)
