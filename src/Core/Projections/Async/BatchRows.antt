-- ===== src/Core/Projections/Async/BatchRows.antt =====
-- What one transaction for a batch leaves in the outbox, in
-- packages/core/src/projections/async-projection-runner.ts.
use eventfabric.Base.{
  ℕ, ◌≡◌, refl, sym, ap, ◌∙◌, Bool, true, false, not, ◌&&◌, ◌||◌, none, some, List, [], ◌∷◌, arith,
  ◌==◌, ltb, keep, keep_both, ok, Result-cases, Option-cases, Bool-cases, inl, inr, Error, Str,
}
use eventfabric.Core.Types.{EventEnvelope}
use eventfabric.Core.Projections.EventLog.{is_dismissed}
use eventfabric.Core.Projections.Outbox.{Outbox, OutboxEntry, OutboxRow, ack, dead_letter}
use eventfabric.Core.Projections.Async.{AsyncProjection, AsyncState, run_projections}
use eventfabric.Core.Projections.Async.Stranded.{run_projections-outbox}
use eventfabric.Core.Projections.Async.BatchMode.{
  row_at, dead_letter_over, settle_event, settle_events,
}

-- Whether an item of a list passes a test.
abbrev pub any {ℓ} : {A : Type ℓ} → (A → Bool) → List A → Bool
any p [] = false
any p (x ∷ xs) = p x || any p xs

-- The log has an event at a position.
abbrev pub has_event : {P : Type 0} → List (EventEnvelope P) → ℕ → Bool
has_event log position = any (λ e. e.global_position == position) log

-- A row that a batch takes out of the outbox: it has come too often, or its event is in the log.
abbrev pub leaves : {P : Type 0} → List (EventEnvelope P) → ℕ → OutboxRow → Bool
leaves log max_attempts r = ltb max_attempts r.attempts || has_event log r.global_position

-- The entries without those of some rows.
abbrev pub without : (OutboxRow → Bool) → List OutboxRow → List OutboxEntry → List OutboxEntry
without test rows = keep (λ e. not (any (λ r. (r.id == e.id) && test r) rows))

pub keep_same :
    (p q : OutboxEntry → Bool) (es : List OutboxEntry)
    → ((e : OutboxEntry) → p e ≡ q e)
    → keep p es ≡ keep q es
keep_same p q [] h = refl
keep_same p q (e ∷ es) h = ground (arith, h e, keep_same p q es h)

-- Two passes over the entries are one.
pub keep_in_turn :
    (p q r : OutboxEntry → Bool) (xs ys zs : List OutboxEntry)
    → xs ≡ keep p ys
    → ys ≡ keep q zs
    → ((e : OutboxEntry) → (q e && p e) ≡ r e)
    → xs ≡ keep r zs
keep_in_turn p q r xs ys zs h k both =
    h ∙ (ap (keep p) k ∙ (sym (keep_both q p zs) ∙ keep_same _ r zs both))

pub keep_every : (es : List OutboxEntry) → keep (λ e. true) es ≡ es
keep_every [] = refl
keep_every (e ∷ es) = ground (arith, keep_every es)

pub dead_letter_over-rows :
    (max_attempts : ℕ) (rows : List OutboxRow) (o : Outbox)
    → (dead_letter_over max_attempts rows o).rows
      ≡ without (λ r. ltb max_attempts r.attempts) rows o.rows
unfolding dead_letter_over dead_letter
dead_letter_over-rows max_attempts [] o = sym (keep_every o.rows)
dead_letter_over-rows max_attempts (r ∷ rows) o =
    let rest = λ (o : Outbox). dead_letter_over-rows max_attempts rows o in
    elim (Bool-cases (ltb max_attempts r.attempts)) [
      | inl over ↦
          keep_in_turn _ (λ e. not (e.id == r.id)) _ _ (dead_letter r.id o).rows o.rows
            (ap (λ x. (dead_letter_over max_attempts rows x).rows) (rw over refl)
              ∙ rest (dead_letter r.id o))
            refl (λ e. ground (arith, over))
      | inr tries ↦
          ap (λ x. (dead_letter_over max_attempts rows x).rows) (rw tries refl)
          ∙ (rest o
              ∙ keep_same (λ e. not (any (λ r. (r.id == e.id) && ltb max_attempts r.attempts) rows))
                  (λ e. not (any (λ q. (q.id == e.id) && ltb max_attempts q.attempts) (r ∷ rows)))
                  o.rows (λ e. ground (arith, tries)))
    ]

-- The rows that are found for events.
abbrev pub found : {P : Type 0} → List OutboxRow → EventEnvelope P → OutboxEntry → Bool
found rows env e = elim (row_at env.global_position rows) [ none ↦ false | some r ↦ r.id == e.id ]

module _ {P A : Type 0} (log : List (EventEnvelope P)) (projections : List (AsyncProjection P A))
    (include_dismissed : Bool) (max_attempts : ℕ) (text : Error → Str) where
  settle_event-rows :
      (rows : List OutboxRow) (env : EventEnvelope P) (s s' : AsyncState A)
      → settle_event log projections include_dismissed max_attempts text rows env s ≡ (ok tt, s')
      → s'.outbox.rows ≡ keep (λ e. not (found rows env e)) s.outbox.rows
  unfolding settle_event ack
  settle_event-rows rows env s s' h = elim (Option-cases (row_at env.global_position rows)) [
    | inl none_here ↦
        let still : s' ≡ s = ground (arith, h, none_here) in
        rw still (
          sym (keep_every s.outbox.rows)
          ∙ keep_same (λ e. true) _ s.outbox.rows (λ e. ground (arith, none_here)))
    | inr (row, here) ↦
        let t = run_projections env row.topic projections s in
        let gone : s'.outbox.rows ≡ keep (λ e. not (e.id == row.id)) s.outbox.rows =
          elim (Bool-cases (is_dismissed env.dismissed && not include_dismissed)) [
            | inl d ↦ ground (arith, h, here, d)
            | inr d ↦ elim (Result-cases t.0) [
              | inl (u, g) ↦
                  ground (arith, h, here, d, g, run_projections-outbox env row.topic projections s)
              | inr (x, g) ↦ ground (arith, h, here, d, g)
            ]
          ] in
        gone ∙ keep_same (λ e. not (e.id == row.id)) _ s.outbox.rows (λ e. ground (arith, here))
  ]

  pub settle_events-rows :
      (rows : List OutboxRow) (envs : List (EventEnvelope P)) (s s' : AsyncState A)
      → settle_events log projections include_dismissed max_attempts text rows envs s ≡ (ok tt, s')
      → s'.outbox.rows ≡ keep (λ e. not (any (λ env. found rows env e) envs)) s.outbox.rows
  unfolding settle_events
  settle_events-rows rows [] s s' h =
      let still : s' ≡ s = ground (arith, h) in rw still (sym (keep_every s.outbox.rows))
  settle_events-rows rows (env ∷ envs) s s' h =
      let t = settle_event log projections include_dismissed max_attempts text rows env s in
      elim (Result-cases t.0) [
        | inr (x, g) ↦ cc (h, g)
        | inl (u, g) ↦
            let first = settle_event-rows rows env s t.1 (ground (arith, g)) in
            let rest = settle_events-rows rows envs t.1 s' (ground (arith, h, g)) in
            keep_in_turn _ (λ e. not (found rows env e)) _ _ t.1.outbox.rows s.outbox.rows rest
              first (λ e. ground arith)
      ]
