-- ===== src/Postgres/EventStore/Append/Expected.antt =====
-- When `append` of packages/postgres/src/pg-event-store.ts succeeds, for an aggregate that is not
-- chained.
use eventfabric.Base.{
  ℕ, ◌+◌, ◌==◌, ◌<◌, ◌≡◌, ◌≢◌, ap, Str, codes, decimal, Option, none, List, [], ◌∷◌, ◌++◌, arith,
  length, Bool-cases, Option-cases, inl, inr, ok, err, ◌⊎◌, error_message, concurrency_error,
  List-cases,
}
use native.Mathlib.Decide.{ℕ_discrete}
use eventfabric.Postgres.EventStore.Tables.{
  StreamId, StreamVersion, Db, PgEventStore, Backend, find_stream, set_stream,
}
use eventfabric.Postgres.EventStore.Rows.{
  AppendParams, AppendResult, is_chained, already_exists, version_conflict,
}
use eventfabric.Postgres.EventStore.Append.{gate, append, no_hashes, write_events, stream_of}
use eventfabric.Postgres.EventStore.Versions.{IsConsistent, current_version}

module _ {P : Type 0} (backend : Backend P) (random_uuid : ℕ → Str) (store : PgEventStore P)
    (s : StreamId) (p : AppendParams P) (db : Db P) (c : IsConsistent db)
    (plain : is_chained store p.aggregate_name ≡ none) where
  gate_met :
      current_version s db ≡ p.expected_aggregate_version
      → (g : List (Option Str) × List StreamVersion) × (gate backend random_uuid store s p
            db.stream_versions
          ≡ ok g)
  unfolding gate
  gate_met e = elim (Option-cases (find_stream s db.stream_versions)) [
    | inl missing ↦
        let starts : p.expected_aggregate_version ≡ 0 = ground (arith, missing) in
        (
          (
            no_hashes p,
            db.stream_versions
                ++ record { stream = s; current_version = length p.events; head_hash = none } ∷ [],
          ),
          ground (arith, missing, plain, starts),
        )
    | inr (v, found) ↦
        let goes_on : 0 < p.expected_aggregate_version =
          ground (arith, found, c.started s v found) in
        (
          (
            no_hashes p,
            set_stream s (p.expected_aggregate_version + length p.events) v.head_hash
                db.stream_versions,
          ),
          ground (arith, found, plain, goes_on),
        )
  ]

  gate_unmet :
      current_version s db ≢ p.expected_aggregate_version
      → (m : Str) × (gate backend random_uuid store s p db.stream_versions
          ≡ err (concurrency_error m))
  unfolding gate
  gate_unmet n = elim (Option-cases (find_stream s db.stream_versions)) [
    | inl missing ↦
        let goes_on : 0 < p.expected_aggregate_version = ground (arith, missing) in
        (
          error_message
              (version_conflict p.expected_aggregate_version s (codes "(stream not found)")),
          ground (arith, missing, plain, goes_on),
        )
    | inr (v, found) ↦ elim (Bool-cases (p.expected_aggregate_version == 0)) [
      | inl e ↦ (error_message (already_exists s), ground (arith, found, plain, e))
      | inr e ↦ (
        error_message (version_conflict p.expected_aggregate_version s (decimal v.current_version)),
        ground (arith, found, plain, e),
      )
    ]
  ]

module _ {P : Type 0} (backend : Backend P) (random_uuid : ℕ → Str) (now : ℕ)
    (store : PgEventStore P) where
  -- On consistent tables, a call with events for an aggregate that is not chained succeeds where
  -- the expected version is the stream's version, and else throws a concurrency error and changes
  -- nothing.
  pub append-current_version :
      (tenant_id : Str) (p : AppendParams P) (db : Db P)
      → IsConsistent db
      → is_chained store p.aggregate_name ≡ none
      → 0 < length p.events
      → ((current_version (stream_of tenant_id p) db ≡ p.expected_aggregate_version)
          × (a : AppendResult P) × ((append backend random_uuid now store tenant_id p db).0 ≡ ok a))
        ⊎ ((current_version (stream_of tenant_id p) db ≢ p.expected_aggregate_version)
            × (m : Str) × (append backend random_uuid now store tenant_id p db
                ≡ (err (concurrency_error m), db)))
  unfolding append
  append-current_version tenant_id p db c plain pos =
      let s = stream_of tenant_id p in
      elim (List-cases p.events) [
        | inl none_given ↦ absurd (omega (arith, ap length none_given))
        | inr (e, es, given) ↦
            elim (ℕ_discrete (current_version s db) p.expected_aggregate_version) [
              | yes met ↦
                  let (g, passed) = gate_met backend random_uuid store s p db c plain met in
                  inl (
                    met,
                    (write_events backend random_uuid now store tenant_id p db g).0,
                    ground (arith, given, passed),
                  )
              | no unmet ↦
                  let (m, refused) = gate_unmet backend random_uuid store s p db c plain unmet in
                  inr (unmet, m, ground (arith, given, refused))
            ]
      ]
