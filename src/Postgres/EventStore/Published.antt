-- ===== src/Postgres/EventStore/Published.antt =====
-- The log that a projection reads behind an `append` of packages/postgres/src/pg-event-store.ts.
use eventfabric.Base.{
  ℕ, suc, ◌+◌, ◌≤◌, ◌<◌, ◌≡◌, refl, sym, Str, none, List, [], ◌∷◌, ◌++◌, Option, map, arith, length,
  keep, All, All-map, All-append, str_eq, if◌then◌else◌, Result, ok, err,
}
use mathlib.Core.List.{append-nil, map-append}
use eventfabric.Core.Types.{Event, EventEnvelope}
use eventfabric.Core.Projections.EventLog.{IsOrdered, is_past}
use eventfabric.Postgres.EventStore.Tables.{StreamId, Db, PgEventStore, Backend}
use eventfabric.Postgres.EventStore.Rows.{
  Meta, AppendParams, AppendResult, new_rows, map_row, later_hashes,
}
use eventfabric.Postgres.EventStore.Append.{append, write_events, stream_of}
use eventfabric.Postgres.EventStore.Append.RoundTrip.{
  Outcome, append-Outcome, nothing, refused, written,
}

module _ {P : Type 0} where
  IsOrdered-append :
      (n : ℕ) (xs ys : List (EventEnvelope P))
      → IsOrdered xs
      → All (λ x. x.global_position < n) xs
      → IsOrdered ys
      → All (λ y. n ≤ y.global_position) ys
      → IsOrdered (xs ++ ys)
  IsOrdered-append n [] ys v h w k = w
  IsOrdered-append n (x ∷ xs) ys v h w k = (
    All-append _ xs ys v.0 (
        All-map _ _ (λ (y : EventEnvelope P) (l : n ≤ y.global_position). omega (arith, h.0, l)) ys
          k),
    IsOrdered-append n xs ys v.1 h.1 w k,
  )

  -- Rows of one tenant that no checkpoint has reached.
  pub keep-is_past :
      (t u : Str) (n from : ℕ) (es : List (EventEnvelope P))
      → from < n
      → All (λ e. (n ≤ e.global_position) × (e.tenant_id ≡ t)) es
      → keep (is_past u from) es ≡ (if str_eq t u then es else [])
  keep-is_past t u n from [] h k = ground arith
  keep-is_past t u n from (e ∷ es) h k = ground (arith, h, k.0, keep-is_past t u n from es h k.1)

module _ {P : Type 0} (store : PgEventStore P) where
  -- The table of events as it is read.
  abbrev pub event_log : Db P → List (EventEnvelope P)
  event_log db = map (map_row store) db.events

  -- The events have the positions that the sequence has given so far, in order.
  pub record InOrder (db : Db P) : Type 0 where
    pub ordered : IsOrdered (event_log db)
    pub drawn : All (λ e. e.global_position < db.next_position) (event_log db)

  -- The appended events of a tenant stand behind the log, at new positions.
  pub record Publishes (tenant_id : Str) (db : Db P) (a : AppendResult P) (db' : Db P)
      : Type 0 where
    pub log : event_log db' ≡ event_log db ++ a.appended
    pub ordered : IsOrdered a.appended
    pub new :
        All (λ e. (db.next_position ≤ e.global_position) × (e.tenant_id ≡ tenant_id)) a.appended
    pub drawn : All (λ e. e.global_position < db'.next_position) a.appended
    pub undismissed : All (λ e. e.dismissed ≡ none) a.appended
    pub grows : db.next_position ≤ db'.next_position

  pub Publishes-InOrder :
      (tenant_id : Str) (db : Db P) (a : AppendResult P) (db' : Db P)
      → InOrder db
      → Publishes tenant_id db a db'
      → InOrder db'
  Publishes-InOrder tenant_id db a db' v p = record {
    ordered = rw p.log (
        IsOrdered-append db.next_position (event_log db) a.appended v.ordered v.drawn p.ordered
          (All-map _ _ (λ e h. h.0) a.appended p.new));
    drawn = rw p.log (
        All-append _ (event_log db) a.appended
          (All-map _ _
            (λ (e : EventEnvelope P) (l : e.global_position < db.next_position).
              omega (arith, l, p.grows))
            (event_log db) v.drawn)
          p.drawn);
  }

module _ {P : Type 0} (backend : Backend P) (random_uuid : ℕ → Str) (now : ℕ)
    (store : PgEventStore P) where
  -- Rows from a position on.
  abbrev rows_from :
      StreamId → Meta → ℕ → ℕ → ℕ → List (Option Str) → List (Event P) → List (EventEnvelope P)
  rows_from s meta base i n hs es =
      map (map_row store) (new_rows backend random_uuid now s meta base i n hs es)

  rows_from-new :
      (s : StreamId) (meta : Meta) (base i n : ℕ) (hs : List (Option Str)) (es : List (Event P))
      → All
          (λ e. (n ≤ e.global_position) × (e.tenant_id ≡ s.tenant_id))
          (rows_from s meta base i n hs es)
  unfolding new_rows map_row
  rows_from-new s meta base i n hs [] = tt
  rows_from-new s meta base i n hs (e ∷ es) = (
    (omega arith, refl),
    All-map _ _
        (λ (x : EventEnvelope P) (h : (suc n ≤ x.global_position) × (x.tenant_id ≡ s.tenant_id)).
          (omega (arith, h.0), h.1))
        _ (rows_from-new s meta base (suc i) (suc n) (later_hashes hs) es),
  )

  rows_from-drawn :
      (s : StreamId) (meta : Meta) (base i n : ℕ) (hs : List (Option Str)) (es : List (Event P))
      → All (λ e. e.global_position < n + length es) (rows_from s meta base i n hs es)
  unfolding new_rows map_row
  rows_from-drawn s meta base i n hs [] = tt
  rows_from-drawn s meta base i n hs (e ∷ es) = (
    omega arith,
    All-map _ _
        (λ (x : EventEnvelope P) (h : x.global_position < suc n + length es). omega (arith, h)) _
        (rows_from-drawn s meta base (suc i) (suc n) (later_hashes hs) es),
  )

  rows_from-IsOrdered :
      (s : StreamId) (meta : Meta) (base i n : ℕ) (hs : List (Option Str)) (es : List (Event P))
      → IsOrdered (rows_from s meta base i n hs es)
  unfolding new_rows map_row
  rows_from-IsOrdered s meta base i n hs [] = tt
  rows_from-IsOrdered s meta base i n hs (e ∷ es) = (
    All-map _ _
        (λ (x : EventEnvelope P) (h : (suc n ≤ x.global_position) × (x.tenant_id ≡ s.tenant_id)).
          omega (arith, h.0))
        _ (rows_from-new s meta base (suc i) (suc n) (later_hashes hs) es),
    rows_from-IsOrdered s meta base (suc i) (suc n) (later_hashes hs) es,
  )

  rows_from-undismissed :
      (s : StreamId) (meta : Meta) (base i n : ℕ) (hs : List (Option Str)) (es : List (Event P))
      → All (λ e. e.dismissed ≡ none) (rows_from s meta base i n hs es)
  unfolding new_rows map_row
  rows_from-undismissed s meta base i n hs [] = tt
  rows_from-undismissed s meta base i n hs (e ∷ es) =
      (refl, rows_from-undismissed s meta base (suc i) (suc n) (later_hashes hs) es)

  abbrev pub PublishesOr : Str → Db P → Result (AppendResult P) × Db P → Type 0
  PublishesOr tenant_id db (err x, db') = db' ≡ db
  PublishesOr tenant_id db (ok a, db') = Publishes store tenant_id db a db'

  Outcome-PublishesOr :
      (tenant_id : Str) (p : AppendParams P) (db : Db P) {r : Result (AppendResult P) × Db P}
      → Outcome backend random_uuid now store tenant_id p db r
      → PublishesOr tenant_id db r
  unfolding write_events
  Outcome-PublishesOr tenant_id p db (nothing e) = record {
    log = sym (append-nil (event_log store db));
    ordered = tt;
    new = tt;
    drawn = tt;
    undismissed = tt;
    grows = omega arith;
  }
  Outcome-PublishesOr tenant_id p db (refused pos g) = refl
  Outcome-PublishesOr tenant_id p db (written hashes vs pos g) =
      let s = stream_of tenant_id p in
      let n = p.expected_aggregate_version in
      record {
        log =
            map-append (map_row store) db.events
              (new_rows backend random_uuid now s p.meta n 0 db.next_position hashes p.events);
        ordered = rows_from-IsOrdered s p.meta n 0 db.next_position hashes p.events;
        new = rows_from-new s p.meta n 0 db.next_position hashes p.events;
        drawn = rows_from-drawn s p.meta n 0 db.next_position hashes p.events;
        undismissed = rows_from-undismissed s p.meta n 0 db.next_position hashes p.events;
        grows = omega arith;
      }

  pub append-PublishesOr :
      (tenant_id : Str) (p : AppendParams P) (db : Db P)
      → PublishesOr tenant_id db (append backend random_uuid now store tenant_id p db)
  append-PublishesOr tenant_id p db =
      Outcome-PublishesOr tenant_id p db
        (append-Outcome backend random_uuid now store tenant_id p db)
