-- ===== src/Postgres/Repository/History.antt =====
-- A stream as `loadStream` of packages/postgres/src/pg-event-store.ts gives it, and its parts up to
-- a version and behind it.
use native.Mathlib.Decide.{ℕ_discrete}
use eventfabric.Base.{
  ℕ, suc, ◌≤◌, leb, ◌≡◌, refl, ap, subst, Bool, true, false, List, [], ◌∷◌, ◌++◌, map, arith, keep,
  inl, inr, ◌⊎◌,
}
use eventfabric.Core.Types.{EventEnvelope}
use eventfabric.Core.Projections.EventLog.{is_wanted}
use eventfabric.Core.Aggregate.Replay.{last_loaded}
use eventfabric.Postgres.EventStore.Tables.{StreamId, EventRow, Db, PgEventStore}
use eventfabric.Postgres.EventStore.Rows.{map_row}
use eventfabric.Postgres.EventStore.Reads.{in_stream, load_stream}
use eventfabric.Postgres.EventStore.Versions.{
  Numbered, IsConsistent, current_version, load_stream-keep,
}

le-cases : (a n : ℕ) → a ≤ n → (a ≡ n) ⊎ (suc a ≤ n)
le-cases a n h = elim (ℕ_discrete a n) [ yes e ↦ inl e | no d ↦ inr (omega arith) ]

module _ {P : Type 0} where
  -- The envelopes have the versions behind one number up to another, in order.
  abbrev pub Counts : ℕ → List (EventEnvelope P) → ℕ → Type 0
  Counts n [] m = n ≡ m
  Counts n (e ∷ es) m = (e.aggregate_version ≡ suc n) × Counts (suc n) es m

  abbrev pub is_from : ℕ → EventEnvelope P → Bool
  is_from n e = leb n e.aggregate_version

  abbrev pub is_up_to : ℕ → EventEnvelope P → Bool
  is_up_to n e = leb e.aggregate_version n

  from_above :
      (a n m : ℕ) (es : List (EventEnvelope P))
      → Counts a es m
      → n ≤ suc a
      → keep (is_from n) es ≡ es
  from_above a n m [] c h = refl
  from_above a n m (e ∷ es) c h = ground (arith, c.0, from_above (suc a) n m es c.1)

  pub up_to_below :
      (a n m : ℕ) (es : List (EventEnvelope P)) → Counts a es m → n ≤ a → keep (is_up_to n) es ≡ []
  up_to_below a n m [] c h = refl
  up_to_below a n m (e ∷ es) c h = ground (arith, c.0, up_to_below (suc a) n m es c.1)

  pub Counts-le : (a m : ℕ) (es : List (EventEnvelope P)) → Counts a es m → a ≤ m
  Counts-le a m [] c = omega (arith, c)
  Counts-le a m (e ∷ es) c = omega (arith, Counts-le (suc a) m es c.1)

  -- A version cuts the envelopes in two.
  pub Counts-cut :
      (a n m : ℕ) (es : List (EventEnvelope P))
      → Counts a es m
      → a ≤ n
      → n ≤ m
      → (es ≡ keep (is_up_to n) es ++ keep (is_from (suc n)) es)
        × Counts n (keep (is_from (suc n)) es) m
  Counts-cut a n m [] c h k = (refl, omega (arith, c))
  Counts-cut a n m (e ∷ es) c h k = elim (le-cases a n h) [
    | inl same ↦
        let low : leb e.aggregate_version n ≡ false = ground (arith, c.0) in
        let high : leb (suc n) e.aggregate_version ≡ true = ground (arith, c.0) in
        rw
          (
            low,
            high,
            up_to_below (suc a) n m es c.1 (omega arith),
            from_above (suc a) (suc n) m es c.1 (omega arith),
          )
          (refl, subst (λ x. Counts x (e ∷ es) m) same c)
    | inr below ↦
        let rest = Counts-cut (suc a) n m es c.1 below k in
        let low : leb e.aggregate_version n ≡ true = ground (arith, c.0) in
        let high : leb (suc n) e.aggregate_version ≡ false = ground (arith, c.0) in
        rw (low, high) (ap (λ l. e ∷ l) rest.0, rest.1)
  ]

  pub Counts-last :
      (a m v : ℕ) (es : List (EventEnvelope P))
      → Counts a es m
      → v ≡ a
      → last_loaded v (map (λ env. (env.payload, env.aggregate_version)) es) ≡ m
  Counts-last a m v [] c h = omega (arith, c)
  Counts-last a m v (e ∷ es) c h = Counts-last (suc a) m e.aggregate_version es c.1 c.0

  pub Counts-rest :
      (a n m : ℕ) (es fs : List (EventEnvelope P))
      → Counts a es n
      → Counts a (es ++ fs) m
      → Counts n fs m
  Counts-rest a n m [] fs c d = subst (λ x. Counts x fs m) c d
  Counts-rest a n m (e ∷ es) fs c d = Counts-rest (suc a) n m es fs c.1 d.1

  pub up_to_end :
      (a m : ℕ) (es : List (EventEnvelope P)) → Counts a es m → keep (is_up_to m) es ≡ es
  up_to_end a m [] c = refl
  up_to_end a m (e ∷ es) c =
      ground (arith, c.0, Counts-le (suc a) m es c.1, up_to_end (suc a) m es c.1)

  pub from_start : (es : List (EventEnvelope P)) → keep (λ env. leb 0 env.aggregate_version) es ≡ es
  from_start [] = refl
  from_start (e ∷ es) = ground (arith, from_start es)

  -- Envelopes behind a version are none up to it.
  pub up_to-append :
      (a n m : ℕ) (es fs : List (EventEnvelope P))
      → Counts a es n
      → Counts n fs m
      → (k : ℕ) → k ≤ n
      → keep (is_up_to k) (es ++ fs) ≡ keep (is_up_to k) es
  up_to-append a n m [] fs c d k h = up_to_below n k m fs d h
  up_to-append a n m (e ∷ es) fs c d k h = ground (arith, up_to-append (suc a) n m es fs c.1 d k h)

module _ {P : Type 0} (store : PgEventStore P) (s : StreamId) where
  -- All that a stream has, dismissed or not.
  abbrev pub all_of : Db P → List (EventEnvelope P)
  all_of db = load_stream store s 0 true db

  rows_from :
      (from : ℕ) (rows : List (EventRow P))
      → keep (is_wanted true) (map (map_row store) (keep (λ r. leb from r.aggregate_version) rows))
        ≡ keep (is_from from) (
            keep
              (is_wanted true)
              (map (map_row store) (keep (λ r. leb 0 r.aggregate_version) rows)))
  unfolding map_row
  rows_from from [] = refl
  rows_from from (r ∷ rs) = ground (arith, rows_from from rs)

  pub load_stream-from :
      (from : ℕ) (db : Db P)
      → IsConsistent db
      → load_stream store s from true db ≡ keep (is_from from) (all_of db)
  load_stream-from from db c =
      rw (load_stream-keep store s from true db c, load_stream-keep store s 0 true db c)
        (rows_from from (keep (in_stream s) db.events))

  rows_Counts :
      (n m : ℕ) (rows : List (EventRow P))
      → Numbered n rows m
      → Counts n
          (keep (is_wanted true) (map (map_row store) (keep (λ r. leb 0 r.aggregate_version) rows)))
          m
  unfolding map_row
  rows_Counts n m [] h = h
  rows_Counts n m (r ∷ rs) h =
      let kept : leb 0 r.aggregate_version ≡ true = ground arith in
      rw kept (h.0, rows_Counts (suc n) m rs h.1)

  pub all_of-Counts : (db : Db P) → IsConsistent db → Counts 0 (all_of db) (current_version s db)
  all_of-Counts db c = rw (load_stream-keep store s 0 true db c) (rows_Counts 0 _ _ (c.numbered s))
