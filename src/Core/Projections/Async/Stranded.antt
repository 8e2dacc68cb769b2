-- ===== src/Core/Projections/Async/Stranded.antt =====
-- The rows of a batch behind one that throws, in the mode of one transaction per row.
use eventfabric.Base.{
  ℕ, zero, suc, ◌≡◌, ◌≢◌, refl, sym, ap, subst, ◌∙◌, Str, Bool, false, not, ◌&&◌, Option, List, [],
  ◌∷◌, ◌++◌, map, arith, ◌==◌, ltb, keep, All, Result, ok, err, Error, Result-cases, Option-cases,
  Bool-cases, inl, inr,
}
use eventfabric.Core.Types.{EventEnvelope}
use eventfabric.Core.Projections.EventLog.{is_dismissed}
use eventfabric.Core.Projections.Outbox.{
  OutboxEntry, OutboxRow, ack, dead_letter, release_with_error, unlock, is_free, has_topic,
  claim_entries, claim_batch,
}
use eventfabric.Core.Projections.Async.{
  AsyncProjection, AsyncState, run_projection, run_projections, event_at, on_outbox, settle_row,
  process_one,
}
use eventfabric.Core.Projections.Async.BatchMode.{process_rows}

-- The entries of an id.
abbrev pub entries_of : ℕ → List OutboxEntry → List OutboxEntry
entries_of id es = keep (λ e. e.id == id) es

-- No entry of an id is free.
abbrev pub IsLocked : ℕ → List OutboxEntry → Type 0
IsLocked id es = All (λ e. is_free e.locked_by ≡ false) (entries_of id es)

entries_of-keep :
    (id q : ℕ) (es : List OutboxEntry)
    → id ≢ q
    → entries_of q (keep (λ e. not (e.id == id)) es) ≡ entries_of q es
entries_of-keep id q [] ne = refl
entries_of-keep id q (e ∷ es) ne = ground (arith, entries_of-keep id q es ne)

entries_of-unlock :
    (id q : ℕ) (message : Str) (es : List OutboxEntry)
    → id ≢ q
    → entries_of q (map (unlock id message) es) ≡ entries_of q es
entries_of-unlock id q message [] ne = refl
entries_of-unlock id q message (e ∷ es) ne = ground (arith, entries_of-unlock id q message es ne)

-- A claim gives no row of an id that is locked.
claim_entries-locked :
    (n q : ℕ) (worker : Str) (topic : Option Str) (es : List OutboxEntry)
    → IsLocked q es
    → All (λ r. r.id ≢ q) (claim_entries n worker topic es).1
unfolding claim_entries
claim_entries-locked zero q worker topic es h = tt
claim_entries-locked (suc n) q worker topic [] h = tt
claim_entries-locked (suc n) q worker topic (e ∷ es) h = elim (Bool-cases (e.id == q)) [
  | inl same ↦
      let rest = rw same at h in rw rest.0 (claim_entries-locked (suc n) q worker topic es rest.1)
  | inr other ↦
      let rest = rw other at h in
      elim (Bool-cases (is_free e.locked_by && has_topic topic e.topic)) [
        | inl taken ↦
            rw taken (ground (arith, other), claim_entries-locked n q worker topic es rest)
        | inr passed ↦ rw passed (claim_entries-locked (suc n) q worker topic es rest)
      ]
]

module _ {P A : Type 0} where
  run_projection-outbox :
      (env : EventEnvelope P) (topic : Option Str) (p : AsyncProjection P A) (s : AsyncState A)
      → (run_projection env topic p s).1.outbox ≡ s.outbox
  unfolding run_projection
  run_projection-outbox env topic p s = ground arith

  pub run_projections-outbox :
      (env : EventEnvelope P) (topic : Option Str) (ps : List (AsyncProjection P A))
      (s : AsyncState A)
      → (run_projections env topic ps s).1.outbox ≡ s.outbox
  unfolding run_projections
  run_projections-outbox env topic [] s = refl
  run_projections-outbox env topic (p ∷ ps) s = ground (
    arith,
    run_projection-outbox env topic p s,
    run_projections-outbox env topic ps (run_projection env topic p s).1,
  )

module _ {P A : Type 0} (log : List (EventEnvelope P)) (projections : List (AsyncProjection P A))
    (include_dismissed : Bool) (max_attempts : ℕ) (text : Error → Str) where
  -- What comes behind a row that throws is not looked at.
  pub process_rows_stop :
      (done : List OutboxRow) (row : OutboxRow) (rest : List OutboxRow) (s mid : AsyncState A)
      (x : Error)
      → process_rows log projections include_dismissed max_attempts text done s ≡ (ok tt, mid)
      → (process_one log projections include_dismissed max_attempts text row mid).0 ≡ err x
      → process_rows log projections include_dismissed max_attempts text (done ++ row ∷ rest) s
        ≡ (err x, (process_one log projections include_dismissed max_attempts text row mid).1)
  unfolding process_rows
  process_rows_stop [] row rest s mid x h e = ground (arith, h, e)
  process_rows_stop (d ∷ done) row rest s mid x h e =
      let t = process_one log projections include_dismissed max_attempts text d s in
      elim (Result-cases t.0) [
        | inl (u, g) ↦ ground (arith, g, h, process_rows_stop done row rest t.1 mid x)
        | inr (y, g) ↦ ground (arith, g, h)
      ]

module _ {P A : Type 0} (log : List (EventEnvelope P)) (projections : List (AsyncProjection P A))
    (include_dismissed : Bool) (max_attempts : ℕ) (text : Error → Str) (q : ℕ) where
  acked-entries_of :
      (row : OutboxRow) (r : Result (Unit {0})) (s : AsyncState A)
      → row.id ≢ q
      → entries_of q
          (elim r as (λ x. Result (Unit {0}) × AsyncState A) [
            | ok _ ↦ (ok tt, on_outbox (ack row.id) s)
            | err e ↦ (err e, s)
          ]).1.outbox.rows
        ≡ entries_of q s.outbox.rows
  unfolding ack
  acked-entries_of row (ok _) s ne = entries_of-keep row.id q s.outbox.rows ne
  acked-entries_of row (err e) s ne = refl

  settle_row-entries_of :
      (row : OutboxRow) (s : AsyncState A)
      → row.id ≢ q
      → entries_of q
          (settle_row log projections include_dismissed max_attempts text row s).1.outbox.rows
        ≡ entries_of q s.outbox.rows
  unfolding settle_row ack dead_letter
  settle_row-entries_of row s ne =
      let removed = entries_of-keep row.id q s.outbox.rows ne in
      elim (Bool-cases (ltb max_attempts row.attempts)) [
        | inl over ↦ rw over removed
        | inr tries ↦ elim (Option-cases (event_at row.global_position log)) [
          | inl e ↦ rw (tries, e) removed
          | inr (env, e) ↦ elim (Bool-cases (is_dismissed env.dismissed && not include_dismissed)) [
            | inl d ↦ rw (tries, e, d) removed
            | inr d ↦
                let t = run_projections env row.topic projections s in
                rw (tries, e, d)
                  (acked-entries_of row t.0 t.1 ne
                    ∙ ap (λ o. entries_of q o.rows)
                        (run_projections-outbox env row.topic projections s))
          ]
        ]
      ]

  process_one-cases :
      (row : OutboxRow) (s : AsyncState A) (r : Result (Unit {0})) (s' : AsyncState A)
      → settle_row log projections include_dismissed max_attempts text row s ≡ (r, s')
      → entries_of q s'.outbox.rows ≡ entries_of q s.outbox.rows
      → row.id ≢ q
      → entries_of q
          (process_one log projections include_dismissed max_attempts text row s).1.outbox.rows
        ≡ entries_of q s.outbox.rows
  unfolding process_one release_with_error
  process_one-cases row s (ok u) s' e same ne = ground (arith, e, same)
  process_one-cases row s (err x) s' e same ne =
      ground (arith, e, entries_of-unlock row.id q (text x) s.outbox.rows ne)

  process_one-entries_of :
      (row : OutboxRow) (s : AsyncState A)
      → row.id ≢ q
      → entries_of q
          (process_one log projections include_dismissed max_attempts text row s).1.outbox.rows
        ≡ entries_of q s.outbox.rows
  process_one-entries_of row s ne =
      let t = settle_row log projections include_dismissed max_attempts text row s in
      process_one-cases row s t.0 t.1 refl (settle_row-entries_of row s ne) ne

  process_rows-entries_of :
      (rows : List OutboxRow) (s : AsyncState A)
      → All (λ r. r.id ≢ q) rows
      → entries_of q
          (process_rows log projections include_dismissed max_attempts text rows s).1.outbox.rows
        ≡ entries_of q s.outbox.rows
  unfolding process_rows
  process_rows-entries_of [] s ne = refl
  process_rows-entries_of (row ∷ rows) s (ne, nes) =
      let t = process_one log projections include_dismissed max_attempts text row s in
      elim (Result-cases t.0) [
        | inl (u, e) ↦
            ground (arith, e, process_rows-entries_of rows t.1 nes, process_one-entries_of row s ne)
        | inr (x, e) ↦ ground (arith, e, process_one-entries_of row s ne)
      ]

  -- The entries of an id behind the row that throws stay as they are, and where these are locked,
  -- no later claim gives them.
  pub process_rows-strands :
      (done : List OutboxRow) (row : OutboxRow) (rest : List OutboxRow) (s mid : AsyncState A)
      (x : Error)
      → process_rows log projections include_dismissed max_attempts text done s ≡ (ok tt, mid)
      → (process_one log projections include_dismissed max_attempts text row mid).0 ≡ err x
      → All (λ r. r.id ≢ q) done
      → row.id ≢ q
      → IsLocked q s.outbox.rows
      → let (r, s') =
          process_rows log projections include_dismissed max_attempts text (done ++ row ∷ rest) s in
        (r ≡ err x)
        × (entries_of q s'.outbox.rows ≡ entries_of q s.outbox.rows)
        × ((n : ℕ) (worker : Str) (topic : Option Str)
            → All (λ c. c.id ≢ q) (claim_batch n worker topic s'.outbox).1)
  unfolding claim_batch
  process_rows-strands done row rest s mid x h e nes ne locked =
      let stop =
        process_rows_stop log projections include_dismissed max_attempts text done row rest s mid x
          h e in
      let same =
        process_one-entries_of row mid ne
        ∙ (sym (ap (λ t. entries_of q t.1.outbox.rows) h) ∙ process_rows-entries_of done s nes) in
      rw stop (
        refl,
        same,
        λ n worker topic. claim_entries-locked n q worker topic _ (
            subst (λ es. All (λ (y : OutboxEntry). is_free y.locked_by ≡ false) es) (sym same)
              locked),
      )
