-- ===== src/Postgres/EventStore/Append/RoundTrip.antt =====
-- What `append` of packages/postgres/src/pg-event-store.ts does to the streams that are read back.
use eventfabric.Base.{
  ℕ, ◌<◌, ◌≡◌, refl, sym, ap, subst, Str, Option, List, [], map, arith, length, inl, inr, ok, err,
  Result, Result-cases, List-cases, Error,
}
use eventfabric.Postgres.EventStore.Tables.{StreamId, StreamVersion, Db, PgEventStore, Backend}
use eventfabric.Postgres.EventStore.Rows.{AppendParams, AppendResult, upcast}
use eventfabric.Postgres.EventStore.Append.{gate, append, write_events, stream_of}
use eventfabric.Postgres.EventStore.Append.Gate.{gate-Passed}
use eventfabric.Postgres.EventStore.Versions.{IsConsistent}
use eventfabric.Postgres.EventStore.Append.NewRows.{new_rows-payloads}
use eventfabric.Postgres.EventStore.Append.Written.{Appends, nothing-Appends, write_events-Appends}

module _ {P : Type 0} (backend : Backend P) (random_uuid : ℕ → Str) (now : ℕ)
    (store : PgEventStore P) where
  -- What one call of `append` comes to.
  pub data Outcome (tenant_id : Str) (p : AppendParams P) (db : Db P)
      : Result (AppendResult P) × Db P → Type 0 where
    nothing :
        p.events ≡ []
        → Outcome tenant_id p db (
          ok (record { appended = []; next_aggregate_version = p.expected_aggregate_version }),
          db,
        )
    refused :
        {x : Error}
        → 0 < length p.events
        → gate backend random_uuid store (stream_of tenant_id p) p db.stream_versions ≡ err x
        → Outcome tenant_id p db (err x, db)
    written :
        (hashes : List (Option Str)) (vs : List StreamVersion)
        → 0 < length p.events
        → gate backend random_uuid store (stream_of tenant_id p) p db.stream_versions
          ≡ ok (hashes, vs)
        → Outcome tenant_id p db (
          ok (write_events backend random_uuid now store tenant_id p db (hashes, vs)).0,
          (write_events backend random_uuid now store tenant_id p db (hashes, vs)).1,
        )

  pub append-Outcome :
      (tenant_id : Str) (p : AppendParams P) (db : Db P)
      → Outcome tenant_id p db (append backend random_uuid now store tenant_id p db)
  unfolding append
  append-Outcome tenant_id p db =
      let call = append backend random_uuid now store tenant_id p db in
      elim (List-cases p.events) [
        | inl none_given ↦
            let done : call ≡ (
              ok (record { appended = []; next_aggregate_version = p.expected_aggregate_version }),
              db,
            ) =
              ground (arith, none_given) in
            subst (Outcome tenant_id p db) (sym done) (nothing none_given)
        | inr (e, es, given) ↦
            let some_given : 0 < length p.events = omega (arith, ap length given) in
            elim (Result-cases
              (gate backend random_uuid store (stream_of tenant_id p) p db.stream_versions)) [
                | inr (x, g) ↦
                    let failed : call ≡ (err x, db) = ground (arith, given, g) in
                    subst (Outcome tenant_id p db) (sym failed) (refused some_given g)
                | inl ((hashes, vs), g) ↦
                    let w =
                      write_events backend random_uuid now store tenant_id p db (hashes, vs) in
                    let done : call ≡ (ok w.0, w.1) = ground (arith, given, g) in
                    subst (Outcome tenant_id p db) (sym done) (written hashes vs some_given g)
              ]
      ]

  -- `append` by its result: an error leaves the tables as they were.
  abbrev pub AppendsOr : StreamId → AppendParams P → Db P → Result (AppendResult P) × Db P → Type 0
  AppendsOr s p db (err x, db') = db' ≡ db
  AppendsOr s p db (ok a, db') =
      Appends store s p db a db'
      × (map (λ env. env.payload) a.appended
          ≡ map (λ e. upcast store.upcaster (backend.through_jsonb e)) p.events)

  write_events-payloads :
      (tenant_id : Str) (p : AppendParams P) (db : Db P) (hashes : List (Option Str))
      (vs : List StreamVersion)
      → map
          (λ env. env.payload)
          (write_events backend random_uuid now store tenant_id p db (hashes, vs)).0.appended
        ≡ map (λ e. upcast store.upcaster (backend.through_jsonb e)) p.events
  unfolding write_events
  write_events-payloads tenant_id p db hashes vs =
      new_rows-payloads backend random_uuid now store (stream_of tenant_id p) p.meta
        p.expected_aggregate_version 0 db.next_position hashes p.events

  Outcome-AppendsOr :
      (tenant_id : Str) (p : AppendParams P) (db : Db P)
      → IsConsistent db
      → {r : Result (AppendResult P) × Db P} → Outcome tenant_id p db r
      → AppendsOr (stream_of tenant_id p) p db r
  Outcome-AppendsOr tenant_id p db c (nothing e) =
      (nothing-Appends store (stream_of tenant_id p) p db c e, rw e refl)
  Outcome-AppendsOr tenant_id p db c (refused pos g) = refl
  Outcome-AppendsOr tenant_id p db c (written hashes vs pos g) =
      let (head, pass, _) =
        gate-Passed backend random_uuid store (stream_of tenant_id p) p db.stream_versions hashes vs
          g in
      (
        write_events-Appends backend random_uuid now store tenant_id p db hashes vs pass c pos,
        write_events-payloads tenant_id p db hashes vs,
      )

  -- On consistent tables, a call of `append` that throws has changed nothing. One that returns was
  -- given no events, or the version that the stream was at; the stream's version has grown by the
  -- number of events; what it reads back, from any version and with dismissed events or without, is
  -- what it read before with the appended envelopes behind it; other streams read as before; the
  -- tables are consistent; and the envelopes have the payloads of the events as they are stored
  -- and upcast.
  pub append-AppendsOr :
      (tenant_id : Str) (p : AppendParams P) (db : Db P)
      → IsConsistent db
      → AppendsOr (stream_of tenant_id p) p db (append backend random_uuid now store tenant_id p db)
  append-AppendsOr tenant_id p db c =
      Outcome-AppendsOr tenant_id p db c (append-Outcome tenant_id p db)
