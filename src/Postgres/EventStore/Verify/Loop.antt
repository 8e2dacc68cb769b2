-- ===== src/Postgres/EventStore/Verify/Loop.antt =====
-- The loop of `verifyStream` in packages/postgres/src/pg-event-store.ts over rows that `append`
-- has hashed.
use eventfabric.Base.{
  ℕ, suc, ◌==◌, ◌≡◌, refl, ap, Str, true, some, List, [], ◌∷◌, ◌++◌, arith, Bool-cases,
  Option-cases, inl, inr, ok, Result, ==_iff, Result-cases, and_then, and_then-ok, str_eq→eq,
  str_eq_refl,
}
use eventfabric.Core.Integrity.HashChain.{hashes_equal}
use eventfabric.Postgres.EventStore.Tables.{StreamId, EventRow, Backend}
use eventfabric.Postgres.EventStore.Verify.{Walk, broken, walked, walk, recompute}
use eventfabric.Postgres.EventStore.Versions.{Numbered}

pub hashes_equal_self : (h : Str) → hashes_equal (some h) (some h) ≡ true
unfolding hashes_equal
hashes_equal_self h = str_eq_refl h

pub hashes_equal→eq : (h k : Str) → hashes_equal (some h) (some k) ≡ true → h ≡ k
unfolding hashes_equal
hashes_equal→eq h k e = str_eq→eq h k e

module _ {P : Type 0} (backend : Backend P) (secret : Str) (s : StreamId) where
  -- The loop goes on behind rows that it has walked.
  abbrev pub walk_on : List (EventRow P) → Walk → Result Walk
  walk_on rs (broken checked version reason) = ok (broken checked version reason)
  walk_on rs (walked p checked expected) = walk backend secret s p checked expected rs

  pub walk-append :
      (p : Str) (checked expected : ℕ) (rs qs : List (EventRow P))
      → walk backend secret s p checked expected (rs ++ qs)
        ≡ and_then (walk backend secret s p checked expected rs) (walk_on qs)
  unfolding walk
  walk-append p checked expected [] qs = refl
  walk-append p checked expected (r ∷ rs) qs = elim (Option-cases r.event_hash) [
    | inl missing ↦ rw missing refl
    | inr (stored, there) ↦ elim (Bool-cases (r.aggregate_version == expected)) [
      | inr gap ↦ rw (there, gap) refl
      | inl next ↦ elim (Result-cases (recompute backend secret s p r)) [
        | inr (x, failed) ↦ rw (there, next, failed) refl
        | inl (h, computed) ↦ elim (Bool-cases (hashes_equal (some h) (some stored))) [
          | inr altered ↦ rw (there, next, computed, altered) refl
          | inl equal ↦
              rw (there, next, computed, equal)
                (walk-append h (suc checked) (suc r.aggregate_version) rs qs)
        ]
      ]
    ]
  ]

  -- A row that is walked has the expected version and stores the hash that is computed from it.
  pub walk_row :
      (p : Str) (checked expected : ℕ) (r : EventRow P) (rs : List (EventRow P)) {q : Str}
      {checked' next : ℕ}
      → walk backend secret s p checked expected (r ∷ rs) ≡ ok (walked q checked' next)
      → (h : Str) × (r.aggregate_version ≡ expected)
        × (r.event_hash ≡ some h)
        × (recompute backend secret s p r ≡ ok h)
        × (walk backend secret s h (suc checked) (suc r.aggregate_version) rs
            ≡ ok (walked q checked' next))
  unfolding walk
  walk_row p checked expected r rs e = elim (Option-cases r.event_hash) [
    | inl missing ↦ absurd (ground (arith, missing))
    | inr (stored, there) ↦ elim (Bool-cases (r.aggregate_version == expected)) [
      | inr gap ↦ absurd (ground (arith, there, gap))
      | inl next ↦
          let (h, computed, rest) =
            and_then-ok (recompute backend secret s p r) _ (rw (there, walk, next) at e) in
          elim (Bool-cases (hashes_equal (some h) (some stored))) [
            | inr altered ↦ absurd (ground (arith, altered))
            | inl equal ↦ (
              h,
              (==_iff _ _).0 next,
              rw (hashes_equal→eq h stored equal) there,
              computed,
              ground (arith, equal),
            )
          ]
    ]
  ]

  pub walk_next :
      (p : Str) (checked expected : ℕ) (r : EventRow P) (rs : List (EventRow P)) (h : Str)
      → r.aggregate_version ≡ expected
      → r.event_hash ≡ some h
      → recompute backend secret s p r ≡ ok h
      → walk backend secret s p checked expected (r ∷ rs)
        ≡ walk backend secret s h (suc checked) (suc r.aggregate_version) rs
  unfolding walk
  walk_next p checked expected r rs h v there computed =
      ground (arith, v, there, computed, hashes_equal_self h)

  -- A walk to the end of numbered rows expects the version behind them.
  pub walk-expected :
      (p : Str) (checked expected n m : ℕ) (rs : List (EventRow P)) {q : Str} {checked' next : ℕ}
      → expected ≡ suc n
      → Numbered n rs m
      → walk backend secret s p checked expected rs ≡ ok (walked q checked' next)
      → next ≡ suc m
  unfolding walk
  walk-expected p checked expected n m [] first h e = ground (arith, h)
  walk-expected p checked expected n m (r ∷ rs) {q} {checked'} {next} first h e =
      let (d, _, _, _, rest) = walk_row p checked expected r rs e in
      walk-expected d (suc checked) (suc r.aggregate_version) (suc n) m rs (ap suc h.0) h.1 rest
