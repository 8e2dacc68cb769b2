-- ===== src/Core/Projections/Async/Rounds.antt =====
-- A round of packages/core/src/projections/async-projection-runner.ts that fails.
use eventfabric.Base.{
  ℕ, ◌≡◌, ◌≢◌, sym, ap, subst, Str, Bool, Option, List, [], ◌∷◌, ◌++◌, map, All, All-map, All-Memᴰ,
  Memᴰ, Memᴰ-All, Distinct, ok, err, Error,
}
use eventfabric.Core.Types.{EventEnvelope}
use eventfabric.Core.Projections.Outbox.{Outbox, OutboxRow, claim_batch}
use eventfabric.Core.Projections.Async.{AsyncProjection, AsyncState, process_one}
use eventfabric.Core.Projections.Async.BatchMode.{per_row, process, process_rows, run_round}
use eventfabric.Core.Projections.Async.Stranded.{
  entries_of, IsLocked, process_rows_stop, process_rows-strands,
}
use eventfabric.Core.Projections.Async.Claims.{id_of, row_id, claim_entries-AreClaimed}

All-last :
    (done : List OutboxRow) (row : OutboxRow) (rest : List OutboxRow) (Q : OutboxRow → Type 0)
    → All Q (done ++ row ∷ rest)
    → All Q rest
All-last [] row rest Q h = h.1
All-last (d ∷ done) row rest Q h = All-last done row rest Q h.1

All-row_id : (Q : ℕ → Type 0) (rs : List OutboxRow) → All Q (map row_id rs) → All (λ r. Q r.id) rs
All-row_id Q [] h = tt
All-row_id Q (r ∷ rs) h = (h.0, All-row_id Q rs h.1)

All-both :
    (Q R : OutboxRow → Type 0) (rs : List OutboxRow) → All Q rs → All R rs → All (λ r. Q r × R r) rs
All-both Q R [] h k = tt
All-both Q R (r ∷ rs) h k = ((h.0, k.0), All-both Q R rs h.1 k.1)

-- Of distinct ids, those behind an item are not those before it and not its own.
All-behind :
    (done : List OutboxRow) (row : OutboxRow) (rest : List OutboxRow)
    → Distinct (map row_id (done ++ row ∷ rest))
    → All (λ c. All (λ r. r.id ≢ c.id) done × (row.id ≢ c.id)) rest
All-behind [] row rest (h, hs) =
    All-map _ _ (λ c (ne : row.id ≢ c.id). (tt, ne)) rest (All-row_id (λ n. row.id ≢ n) rest h)
All-behind (d ∷ done) row rest (h, hs) =
    All-map _ _
      (λ c (both : (All (λ r. r.id ≢ c.id) done × (row.id ≢ c.id)) × (d.id ≢ c.id)).
        ((both.1, both.0.0), both.0.1))
      rest
      (All-both _ _ rest (All-behind done row rest hs)
        (All-last done row rest (λ r. d.id ≢ r.id) (All-row_id (λ n. d.id ≢ n) _ h)))

module _ {A : Type 0} where
  -- The state behind the claim of a round.
  abbrev pub claimed_state : ℕ → Str → Option Str → AsyncState A → AsyncState A
  claimed_state n worker topic s = record s { outbox = (claim_batch n worker topic s.outbox).0 }

  -- What is not looked at: the entries stay as the claim has left them, and no claim on this
  -- state gives them.
  abbrev pub IsStranded : Outbox → AsyncState A → OutboxRow → Type 0
  IsStranded claimed s c =
      (entries_of c.id s.outbox.rows ≡ entries_of c.id claimed.rows)
      × ((n : ℕ) (worker : Str) (topic : Option Str)
          → All (λ d. d.id ≢ c.id) (claim_batch n worker topic s.outbox).1)

module _ {P A : Type 0} (log : List (EventEnvelope P)) (projections : List (AsyncProjection P A))
    (include_dismissed : Bool) (max_attempts : ℕ) (text : Error → Str) where
  -- One transaction for a row: where the ids of the outbox are distinct and a row of the claimed
  -- batch throws behind rows that did not, the round throws, and every row of the batch behind it
  -- is stranded: its entries stay as the claim has left them, and no claim of any worker on what
  -- the round leaves gives it.
  pub run_round-IsStranded :
      (n : ℕ) (worker : Str) (topic : Option Str) (s mid : AsyncState A) (done : List OutboxRow)
      (row : OutboxRow) (rest : List OutboxRow) (x : Error)
      → Distinct (map id_of s.outbox.rows)
      → (claim_batch n worker topic s.outbox).1 ≡ done ++ row ∷ rest
      → process_rows log projections include_dismissed max_attempts text done
          (claimed_state n worker topic s)
        ≡ (ok tt, mid)
      → (process_one log projections include_dismissed max_attempts text row mid).0 ≡ err x
      → let (r, s') =
          run_round log projections include_dismissed max_attempts text per_row n worker topic s in
        (r ≡ err x) × All (IsStranded (claim_batch n worker topic s.outbox).0 s') rest
  unfolding run_round process claim_batch
  run_round-IsStranded n worker topic s mid done row rest x ids split h e =
      let start = claimed_state n worker topic s in
      let c = claim_entries-AreClaimed n worker topic s.outbox.rows ids in
      let behind =
        All-behind done row rest (subst (λ l. Distinct (map row_id l)) split c.distinct) in
      let locked =
        All-last done row rest (λ r. IsLocked r.id start.outbox.rows)
          (subst (λ l. All (λ (r : OutboxRow). IsLocked r.id start.outbox.rows) l) split
            c.locked) in
      let strand = λ (q : OutboxRow) (i : Memᴰ q rest).
        process_rows-strands log projections include_dismissed max_attempts text q.id done row rest
          start mid x h e
          (All-Memᴰ (λ c. All (λ r. r.id ≢ c.id) done × (row.id ≢ c.id)) rest behind i).0
          (All-Memᴰ (λ c. All (λ r. r.id ≢ c.id) done × (row.id ≢ c.id)) rest behind i).1
          (All-Memᴰ (λ r. IsLocked r.id start.outbox.rows) rest locked i) in
      subst
        (λ l.
          ((process_rows log projections include_dismissed max_attempts text l start).0 ≡ err x)
          × All
              (IsStranded start.outbox
                (process_rows log projections include_dismissed max_attempts text l start).1)
              rest)
        (sym split)
        (
          ap (λ t. t.0)
              (process_rows_stop log projections include_dismissed max_attempts text done row rest
                start mid x h e),
          Memᴰ-All _ rest (λ q i. ((strand q i).1, (strand q i).2)),
        )
