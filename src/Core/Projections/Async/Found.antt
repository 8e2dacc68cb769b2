-- ===== src/Core/Projections/Async/Found.antt =====
-- The events that a batch of packages/core/src/projections/async-projection-runner.ts finds for its
-- rows.
use eventfabric.Base.{
  ℕ, ◌≡◌, ◌≢◌, refl, sym, ap, ◌∙◌, Bool, true, false, ◌&&◌, ◌||◌, some, List, [], ◌∷◌, map, arith,
  ◌==◌, ltb, keep, All, All-map, Distinct, Option-cases, Bool-cases, inl, inr,
}
use eventfabric.Core.Types.{EventEnvelope}
use eventfabric.Core.Projections.Outbox.{OutboxEntry, OutboxRow}
use eventfabric.Core.Projections.Async.BatchMode.{
  includes_position, events_at, row_at, position_of, remaining_rows,
}
use eventfabric.Core.Projections.Async.BatchRows.{any, has_event, leaves, found}

module _ {ℓ} {A : Type ℓ} where
  any_same : (p q : A → Bool) (xs : List A) → All (λ x. p x ≡ q x) xs → any p xs ≡ any q xs
  any_same p q [] h = refl
  any_same p q (x ∷ xs) h = ground (arith, h.0, any_same p q xs h.1)

  any_or : (p q : A → Bool) (xs : List A) → any (λ x. p x || q x) xs ≡ (any p xs || any q xs)
  any_or p q [] = refl
  any_or p q (x ∷ xs) = ground (arith, any_or p q xs)

  any_none : (p : A → Bool) (xs : List A) → any (λ x. p x && false) xs ≡ false
  any_none p [] = refl
  any_none p (x ∷ xs) = ground (arith, any_none p xs)

  All-everywhere {κ} : (Q : A → Type κ) (xs : List A) → ((x : A) → Q x) → All Q xs
  All-everywhere Q [] h = tt
  All-everywhere Q (x ∷ xs) h = (h x, All-everywhere Q xs h)

-- A row that is found for a position has it.
row_at-ne :
    (x p : ℕ) (rs : List OutboxRow) (q : OutboxRow)
    → All (λ n. x ≢ n) (map position_of rs)
    → row_at p rs ≡ some q
    → x ≢ p
unfolding row_at
row_at-ne x p [] q far h = cc
row_at-ne x p (r ∷ rs) q far h = elim (Option-cases (row_at p rs)) [
  | inl e ↦ ground (arith, far.0, h, e)
  | inr (y, e) ↦ row_at-ne x p rs y far.1 e
]

module _ {P : Type 0} where
  -- Where positions are distinct, the row of an event is any row of its position.
  found-any :
      (rows : List OutboxRow) (env : EventEnvelope P) (e : OutboxEntry)
      → Distinct (map position_of rows)
      → found rows env e
        ≡ any (λ r. (r.id == e.id) && (env.global_position == r.global_position)) rows
  unfolding row_at
  found-any [] env e h = refl
  found-any (r ∷ rs) env e h = elim (Option-cases (row_at env.global_position rs)) [
    | inl g ↦ ground (arith, g, found-any rs env e h.1)
    | inr (q, g) ↦
        ground (
          arith,
          g,
          found-any rs env e h.1,
          row_at-ne r.global_position env.global_position rs q h.0,
        )
  ]

  -- The two loops in the other order.
  any_swap :
      (f : OutboxRow → Bool) (rows : List OutboxRow) (envs : List (EventEnvelope P))
      → any (λ env. any (λ r. f r && (env.global_position == r.global_position)) rows) envs
        ≡ any (λ r. f r && has_event envs r.global_position) rows
  any_swap f rows [] = sym (any_none f rows)
  any_swap f rows (env ∷ envs) =
      let here = λ (r : OutboxRow). f r && (env.global_position == r.global_position) in
      let later = λ (r : OutboxRow). f r && has_event envs r.global_position in
      ap (λ b. any here rows || b) (any_swap f rows envs)
      ∙ (sym (any_or here later rows)
          ∙ any_same (λ r. here r || later r) (λ r. f r && has_event (env ∷ envs) r.global_position)
              rows (All-everywhere _ rows (λ r. ground arith)))

  has_event-events_at :
      (positions : List ℕ) (p : ℕ) (log : List (EventEnvelope P))
      → includes_position positions p ≡ true
      → has_event (events_at positions log) p ≡ has_event log p
  unfolding events_at
  has_event-events_at positions p [] h = refl
  has_event-events_at positions p (env ∷ log) h =
      ground (arith, has_event-events_at positions p log h, ap (includes_position positions))

includes_position_each :
    (rows : List OutboxRow)
    → All (λ r. includes_position (map position_of rows) r.global_position ≡ true) rows
includes_position_each [] = tt
includes_position_each (r ∷ rs) = (
  ground arith,
  All-map _ _
      (λ q (h : includes_position (map position_of rs) q.global_position ≡ true). ground (arith, h))
      rs (includes_position_each rs),
)

pub Distinct-keep :
    (p : OutboxRow → Bool) (rows : List OutboxRow)
    → Distinct (map position_of rows)
    → Distinct (map position_of (keep p rows))
Distinct-keep p [] h = tt
Distinct-keep p (r ∷ rs) (h, hs) = elim (Bool-cases (p r)) [
  | inl e ↦ rw e (apart rs h, Distinct-keep p rs hs)
  | inr e ↦ rw e (Distinct-keep p rs hs)
]
  where
    apart :
        (qs : List OutboxRow)
        → All (λ n. r.global_position ≢ n) (map position_of qs)
        → All (λ n. r.global_position ≢ n) (map position_of (keep p qs))
    apart [] k = tt
    apart (q ∷ qs) k = elim (Bool-cases (p q)) [
      | inl e ↦ rw e (k.0, apart qs k.1)
      | inr e ↦ rw e (apart qs k.1)
    ]

module _ {P : Type 0} (log : List (EventEnvelope P)) where
  -- The entries of the rows whose events are found are those of the rows whose events are there.
  pub found_rows :
      (rows : List OutboxRow) (e : OutboxEntry)
      → Distinct (map position_of rows)
      → any (λ env. found rows env e) (events_at (map position_of rows) log)
        ≡ any (λ r. (r.id == e.id) && has_event log r.global_position) rows
  found_rows rows e h =
      let envs = events_at (map position_of rows) log in
      any_same _ _ envs (All-everywhere _ envs (λ env. found-any rows env e h))
      ∙ (any_swap (λ r. r.id == e.id) rows envs
          ∙ any_same (λ r. (r.id == e.id) && has_event envs r.global_position) _ rows
              (All-map _ _
                (λ r (h : includes_position (map position_of rows) r.global_position ≡ true).
                  ap (λ b. (r.id == e.id) && b)
                    (has_event-events_at (map position_of rows) r.global_position log h))
                rows (includes_position_each rows)))

  -- The rows that have come too often and those of the others whose events are there.
  pub leaves_either :
      (max_attempts : ℕ) (rows : List OutboxRow) (e : OutboxEntry)
      → (any (λ r. (r.id == e.id) && ltb max_attempts r.attempts) rows
          || any
              (λ r. (r.id == e.id) && has_event log r.global_position)
              (remaining_rows max_attempts rows))
        ≡ any (λ r. (r.id == e.id) && leaves log max_attempts r) rows
  leaves_either max_attempts [] e = refl
  leaves_either max_attempts (r ∷ rs) e = ground (arith, leaves_either max_attempts rs e)
