-- ===== src/Sagas/CommandQueue/Claim.antt =====
-- Claiming a batch of saga commands: which rows are handed out, and what becomes of them.
use eventfabric.Base.{
  ℕ, suc, ◌+◌, ◌-◌, ◌≤◌, ◌≡◌, refl, ap, inl, inr, List, [], ◌∷◌, map, arith, length, keep, count,
  take, take-nil, leb, if◌then◌else◌, Bool-cases, length-take-le, length-map,
}
use eventfabric.Sagas.CommandQueue.{
  Row, CommandQueue, is_pending, is_claimed, claimable, claim_row, item_of, claim_rows, claim_batch,
}

module _ {C : Type 0} (now n : ℕ) where
  claim_rows-items :
      (k : ℕ) (rows : List (Row C))
      → (claim_rows now n k rows).1
        ≡ map (λ row. item_of (claim_row row)) (take (n - k) (keep (claimable now) rows))
  unfolding claim_rows
  claim_rows-items k [] = rw take-nil
  claim_rows-items k (row ∷ rows) = elim (Bool-cases (leb n k)) [
    | inl full ↦ let e : n - k ≡ 0 = ground arith in rw (full, e)
    | inr room ↦
        let e : n - k ≡ suc (n - suc k) = ground arith in
        elim (Bool-cases (claimable now row)) [
          | inl fits ↦
              rw (room, fits, e)
                (ap (◌∷◌ (item_of (claim_row row))) (claim_rows-items (suc k) rows))
          | inr skip ↦ rw (room, skip) (claim_rows-items k rows)
        ]
  ]

  claim_rows-ids :
      (k : ℕ) (rows : List (Row C))
      → map (λ row. row.id) (claim_rows now n k rows).0 ≡ map (λ row. row.id) rows
  unfolding claim_rows
  claim_rows-ids k [] = refl
  claim_rows-ids k (row ∷ rows) =
      ground (arith, claim_rows-ids (if claimable now row then suc k else k) rows)

  claim_rows-counts :
      (k : ℕ) (rows : List (Row C))
      → let r = claim_rows now n k rows in
        (count (λ row. is_claimed row.status) r.0
          ≡ count (λ row. is_claimed row.status) rows + length r.1)
        × (count (λ row. is_pending row.status) rows
            ≡ count (λ row. is_pending row.status) r.0 + length r.1)
  unfolding claim_rows
  claim_rows-counts k [] = (omega arith, omega arith)
  claim_rows-counts k (row ∷ rows) =
      ground (arith, claim_rows-counts (if claimable now row then suc k else k) rows)

-- A batch is the first claimable rows in the order of enqueueing, up to the batch size, each with
-- its attempt counted; exactly these rows go from pending to claimed, and no row comes or goes.
pub claim_batch_lem :
    {C : Type 0} (batch_size now : ℕ) (q : CommandQueue C)
    → let (q', items) = claim_batch batch_size now q in
      (items ≡ map (λ row. item_of (claim_row row)) (take batch_size (keep (claimable now) q.rows)))
      × (count (λ row. is_claimed row.status) q'.rows
          ≡ count (λ row. is_claimed row.status) q.rows + length items)
      × (count (λ row. is_pending row.status) q.rows
          ≡ count (λ row. is_pending row.status) q'.rows + length items)
      × (map (λ row. row.id) q'.rows ≡ map (λ row. row.id) q.rows)
unfolding claim_batch
claim_batch_lem batch_size now q =
    let counts = claim_rows-counts now batch_size 0 q.rows in
    let e : batch_size - 0 ≡ batch_size = omega arith in
    (
      rw e at (claim_rows-items now batch_size 0 q.rows),
      counts.0,
      counts.1,
      claim_rows-ids now batch_size 0 q.rows,
    )

-- So a batch is never larger than its size.
pub length-claim_batch-le :
    {C : Type 0} (batch_size now : ℕ) (q : CommandQueue C)
    → length (claim_batch batch_size now q).1 ≤ batch_size
length-claim_batch-le batch_size now q =
    rw ((claim_batch_lem batch_size now q).0, length-map)
      (length-take-le batch_size (keep (claimable now) q.rows))
