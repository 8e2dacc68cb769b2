-- ===== src/Core/Projections/Async/Rows.antt =====
-- What the runner does with a row that it claimed.
use eventfabric.Base.{
  ℕ, ◌≡◌, refl, sym, ap, subst, Str, Bool, true, false, not, ◌&&◌, ◌||◌, Option, none, some, List,
  [], ◌∷◌, map, ◌++◌, arith, ltb, ◌==◌, if◌then◌else◌, keep, Result, ok, err, Error, Option-cases,
  Bool-cases, inl, inr,
}
use eventfabric.Core.Types.{EventEnvelope}
use eventfabric.Core.Projections.EventLog.{is_dismissed}
use eventfabric.Core.Projections.Outbox.{
  OutboxRow, IsSettled, release_with_error, ack, ack-IsSettled, dead_letter, dead_letter-IsSettled,
}
use eventfabric.Core.Projections.Async.{
  AsyncProjection, AsyncState, run_projection, run_projections, event_at, on_outbox, settle_row,
  process_one,
}

-- No event is stored at a position.
abbrev is_absent : {P : Type 0} → Option (EventEnvelope P) → Bool
is_absent none = true
is_absent (some _) = false

module _ {P A : Type 0} where
  run_projection-outbox :
      (env : EventEnvelope P) (topic : Option Str) (p : AsyncProjection P A) (s : AsyncState A)
      → (run_projection env topic p s).1.outbox ≡ s.outbox
  unfolding run_projection
  run_projection-outbox env topic p s = ground arith

  run_projections-outbox :
      (env : EventEnvelope P) (topic : Option Str) (ps : List (AsyncProjection P A))
      (s : AsyncState A)
      → (run_projections env topic ps s).1.outbox ≡ s.outbox
  unfolding run_projections
  run_projections-outbox env topic [] s = refl
  run_projections-outbox env topic (p ∷ ps) s = ground (
    arith,
    run_projection-outbox env topic p s,
    run_projections-outbox env topic ps (run_projection env topic p s).1,
  )

module _ {P A : Type 0} (log : List (EventEnvelope P)) (projections : List (AsyncProjection P A))
    (include_dismissed : Bool) (max_attempts : ℕ) (text : Error → Str) where
  -- What is left in the outbox by a row that was processed, and the dead letter of a row that is
  -- over the limit or has no event.
  abbrev Leaves : OutboxRow → AsyncState A → AsyncState A → Type 0
  Leaves row s s' =
      (s'.outbox.rows ≡ keep (λ e. not (e.id == row.id)) s.outbox.rows)
      × (s'.outbox.dead_letters ≡ (
          if ltb max_attempts row.attempts || is_absent (event_at row.global_position log)
          then s.outbox.dead_letters ++ keep (λ e. e.id == row.id) s.outbox.rows
          else s.outbox.dead_letters))

  abbrev pub Settles : OutboxRow → AsyncState A → Result (Unit {0}) × AsyncState A → Type 0
  Settles row s (ok _, s') = IsSettled row.id s'.outbox × Leaves row s s'
  Settles row s (err x, s') =
      (s'.outbox.rows
        ≡ map
            (λ e.
              if e.id == row.id
              then record e { locked_by = none; last_error = some (text x) }
              else e)
            s.outbox.rows)
      × (s'.outbox.dead_letters ≡ s.outbox.dead_letters)
      × (s'.checkpoints ≡ s.checkpoints)
      × (s'.app ≡ s.app)

  abbrev Ends : OutboxRow → AsyncState A → Result (Unit {0}) × AsyncState A → Type 0
  Ends row s (ok _, s') = IsSettled row.id s'.outbox × Leaves row s s'
  Ends row s (err e, s') = Unit

  acked :
      (row : OutboxRow) (r : Result (Unit {0})) (s mid : AsyncState A) (env : EventEnvelope P)
      → ltb max_attempts row.attempts ≡ false
      → event_at row.global_position log ≡ some env
      → mid.outbox ≡ s.outbox
      → Ends row s (elim r [ ok _ ↦ (ok tt, on_outbox (ack row.id) mid) | err e ↦ (err e, mid) ])
  unfolding ack
  acked row (ok _) s mid env tries e same = (
    ack-IsSettled row.id mid.outbox,
    (ap (λ o. (ack row.id o).rows) same, rw (tries, e) (ap (λ o. o.dead_letters) same)),
  )
  acked row (err e) s mid env tries found same = tt

  settle_row-Ends :
      (row : OutboxRow) (s : AsyncState A)
      → Ends row s (settle_row log projections include_dismissed max_attempts text row s)
  unfolding settle_row dead_letter ack
  settle_row-Ends row s = elim (Bool-cases (ltb max_attempts row.attempts)) [
    | inl over ↦ rw over (dead_letter-IsSettled row.id s.outbox, (refl, rw over refl))
    | inr tries ↦ elim (Option-cases (event_at row.global_position log)) [
      | inl e ↦ rw (tries, e) (dead_letter-IsSettled row.id s.outbox, (refl, rw (tries, e) refl))
      | inr (env, e) ↦ elim (Bool-cases (is_dismissed env.dismissed && not include_dismissed)) [
        | inl d ↦ rw (tries, e, d) (ack-IsSettled row.id s.outbox, (refl, rw (tries, e) refl))
        | inr d ↦
            let t = run_projections env row.topic projections s in
            let h =
              acked row t.0 s t.1 env tries e
                (run_projections-outbox env row.topic projections s) in
            rw (tries, e, d) h
      ]
    ]
  ]

  process_one-cases :
      (row : OutboxRow) (s : AsyncState A) (r : Result (Unit {0})) (s' : AsyncState A)
      → settle_row log projections include_dismissed max_attempts text row s ≡ (r, s')
      → Ends row s (r, s')
      → Settles row s (process_one log projections include_dismissed max_attempts text row s)
  unfolding process_one release_with_error
  process_one-cases row s (ok u) s' e h =
      let done : process_one log projections include_dismissed max_attempts text row s
          ≡ (ok tt, s') =
        ground (arith, e) in
      subst (Settles row s) (sym done) h
  process_one-cases row s (err x) s' e h =
      let done : process_one log projections include_dismissed max_attempts text row s
          ≡ (err x, on_outbox (release_with_error row.id (text x)) s) =
        ground (arith, e) in
      subst (Settles row s) (sym done) (refl, refl, refl, refl)

  -- A row that is processed without an error leaves the outbox, and the other rows stay as they
  -- are; one that is over the limit of attempts or has no event is added to the dead letters, and
  -- without either nothing is. On an error, only the row is changed: it is unlocked and has the
  -- text of the error; the dead letters, the checkpoints and the read models are the old ones.
  pub process_one-Settles :
      (row : OutboxRow) (s : AsyncState A)
      → Settles row s (process_one log projections include_dismissed max_attempts text row s)
  process_one-Settles row s =
      let t = settle_row log projections include_dismissed max_attempts text row s in
      process_one-cases row s t.0 t.1 refl (settle_row-Ends row s)
