-- ===== src/Postgres/EventStore/Append/Written.antt =====
-- The tables behind a gate that is passed, in packages/postgres/src/pg-event-store.ts.
use mathlib.Core.List.{append-nil, map-append}
use eventfabric.Base.{
  ℕ, ◌+◌, ◌<◌, leb, ◌≡◌, refl, sym, ap, ◌∙◌, Str, Bool, false, Option, some, List, [], ◌++◌, map,
  arith, length, if◌then◌else◌, Bool-cases, inl, inr, keep, ◌⊎◌, keep-append,
}
use eventfabric.Core.Projections.EventLog.{is_wanted}
use eventfabric.Postgres.EventStore.Tables.{
  StreamId, StreamVersion, Db, PgEventStore, Backend, same_stream, same_stream_refl, same_stream→eq,
  find_stream,
}
use eventfabric.Postgres.EventStore.Rows.{AppendParams, AppendResult, map_row}
use eventfabric.Postgres.EventStore.Reads.{in_stream, load_stream}
use eventfabric.Postgres.EventStore.Append.{write_events, inserted_rows, stream_of}
use eventfabric.Postgres.EventStore.Append.Gate.{Passes}
use eventfabric.Postgres.EventStore.Versions.{
  Numbered, Numbered-append, IsConsistent, current_version, load_stream-keep,
}
use eventfabric.Postgres.EventStore.Append.NewRows.{
  new_rows-stream, new_rows-undismissed, new_rows-Numbered, keep-in_stream, undismissed_wanted,
}

module _ {P : Type 0} (store : PgEventStore P) where
  -- What a call of `append` that succeeds has done.
  pub record Appends (s : StreamId) (p : AppendParams P) (db : Db P) (a : AppendResult P)
      (db' : Db P) : Type 0 where
    pub expected : (p.events ≡ []) ⊎ (current_version s db ≡ p.expected_aggregate_version)
    pub next : a.next_aggregate_version ≡ p.expected_aggregate_version + length p.events
    pub version : current_version s db' ≡ current_version s db + length p.events
    pub loads :
        (from : ℕ) (include_dismissed : Bool)
        → load_stream store s from include_dismissed db'
          ≡ load_stream store s from include_dismissed db
            ++ keep (λ env. leb from env.aggregate_version) a.appended
    pub others :
        (t : StreamId) (from : ℕ) (include_dismissed : Bool)
        → same_stream s t ≡ false
        → load_stream store t from include_dismissed db'
          ≡ load_stream store t from include_dismissed db
    pub consistent : IsConsistent db'

  pub nothing-Appends :
      (s : StreamId) (p : AppendParams P) (db : Db P)
      → IsConsistent db
      → p.events ≡ []
      → Appends s p db
          (record { appended = []; next_aggregate_version = p.expected_aggregate_version })
          db
  nothing-Appends s p db c e = record {
    expected = inl e;
    next = omega (arith, ap length e);
    version = omega (arith, ap length e);
    loads = λ from b. sym (append-nil _);
    others = λ t from b n. refl;
    consistent = c;
  }

module _ {P : Type 0} (backend : Backend P) (random_uuid : ℕ → Str) (now : ℕ)
    (store : PgEventStore P) where
  -- The rows of a stream behind the gate.
  pub written_rows :
      (tenant_id : Str) (p : AppendParams P) (db : Db P) (hashes : List (Option Str))
      (vs : List StreamVersion) (t : StreamId)
      → keep
          (in_stream t)
          (write_events backend random_uuid now store tenant_id p db (hashes, vs)).1.events
        ≡ keep (in_stream t) db.events
          ++ (if same_stream (stream_of tenant_id p) t
              then inserted_rows backend random_uuid now store (stream_of tenant_id p) p hashes db
              else [])
  unfolding write_events
  written_rows tenant_id p db hashes vs t =
      let rows = inserted_rows backend random_uuid now store (stream_of tenant_id p) p hashes db in
      keep-append (in_stream t) db.events rows
      ∙ ap (λ l. keep (in_stream t) db.events ++ l)
          (keep-in_stream store (stream_of tenant_id p) t rows (
            new_rows-stream backend random_uuid now (stream_of tenant_id p) p.meta
              p.expected_aggregate_version 0 db.next_position hashes p.events))

  module _ (tenant_id : Str) (p : AppendParams P) (db : Db P) (hashes : List (Option Str))
      (vs : List StreamVersion) {head : Option Str}
      (pass : Passes (stream_of tenant_id p) p db.stream_versions vs head)
      (c : IsConsistent db) where
    written_current :
        (t : StreamId)
        → current_version t
            (write_events backend random_uuid now store tenant_id p db (hashes, vs)).1
          ≡ (if same_stream (stream_of tenant_id p) t
              then current_version t db + length p.events
              else current_version t db)
    unfolding write_events
    written_current t = elim (Bool-cases (same_stream (stream_of tenant_id p) t)) [
      | inl e ↦
          let was = rw (same_stream→eq (stream_of tenant_id p) t e) at pass.was in
          ground (arith, e, pass.now t, was)
      | inr e ↦ ground (arith, e, pass.now t)
    ]

    written-Numbered :
        (t : StreamId)
        → Numbered 0
            (keep
              (in_stream t)
              (write_events backend random_uuid now store tenant_id p db (hashes, vs)).1.events)
            (current_version t
              (write_events backend random_uuid now store tenant_id p db (hashes, vs)).1)
    written-Numbered t = elim (Bool-cases (same_stream (stream_of tenant_id p) t)) [
      | inl e ↦
          let was = rw (same_stream→eq (stream_of tenant_id p) t e) at pass.was in
          rw (written_rows tenant_id p db hashes vs t, written_current t, e)
            (Numbered-append 0 (current_version t db) (current_version t db + length p.events)
              (keep (in_stream t) db.events) _ (c.numbered t)
              (new_rows-Numbered backend random_uuid now (stream_of tenant_id p) p.meta
                p.expected_aggregate_version 0 db.next_position (current_version t db) hashes
                p.events (omega (arith, was))))
      | inr e ↦
          rw
            (
              written_rows tenant_id p db hashes vs t,
              written_current t,
              e,
              append-nil (keep (in_stream t) db.events),
            )
            (c.numbered t)
    ]

    written_started :
        0 < length p.events
        → (t : StreamId) (v : StreamVersion) → find_stream t vs ≡ some v
        → 0 < v.current_version
    written_started pos t v h = ground (arith, pass.now t, c.started t v)

    pub write_events-IsConsistent :
        0 < length p.events
        → IsConsistent (write_events backend random_uuid now store tenant_id p db (hashes, vs)).1
    unfolding write_events
    write_events-IsConsistent pos = record {
      numbered = written-Numbered;
      started = written_started pos;
    }

    written_load :
        (t : StreamId) (from : ℕ) (include_dismissed : Bool)
        → 0 < length p.events
        → load_stream store t from include_dismissed
            (write_events backend random_uuid now store tenant_id p db (hashes, vs)).1
          ≡ load_stream store t from include_dismissed db
            ++ (if same_stream (stream_of tenant_id p) t
                then keep
                    (λ env. leb from env.aggregate_version)
                    (map (map_row store) (
                      inserted_rows backend random_uuid now store
                        (stream_of tenant_id p)
                        p
                        hashes
                        db))
                else [])
    written_load t from include_dismissed pos =
        let rows =
          inserted_rows backend random_uuid now store (stream_of tenant_id p) p hashes db in
        let behind =
          keep-append (λ r. leb from r.aggregate_version) (keep (in_stream t) db.events) rows in
        elim (Bool-cases (same_stream (stream_of tenant_id p) t)) [
          | inl e ↦
              rw
                (
                  load_stream-keep store t from include_dismissed _ (write_events-IsConsistent pos),
                  load_stream-keep store t from include_dismissed db c,
                  written_rows tenant_id p db hashes vs t,
                  e,
                  behind,
                  map-append (map_row store)
                      (keep (λ r. leb from r.aggregate_version) (keep (in_stream t) db.events))
                      (keep (λ r. leb from r.aggregate_version) rows),
                  keep-append (is_wanted include_dismissed)
                      (map (map_row store)
                        (keep (λ r. leb from r.aggregate_version) (keep (in_stream t) db.events)))
                      (map (map_row store) (keep (λ r. leb from r.aggregate_version) rows)),
                  undismissed_wanted store from include_dismissed rows (
                      new_rows-undismissed backend random_uuid now (stream_of tenant_id p) p.meta
                        p.expected_aggregate_version 0 db.next_position hashes p.events),
                )
                refl
          | inr e ↦
              rw
                (
                  load_stream-keep store t from include_dismissed _ (write_events-IsConsistent pos),
                  load_stream-keep store t from include_dismissed db c,
                  written_rows tenant_id p db hashes vs t,
                  e,
                  append-nil (keep (in_stream t) db.events),
                )
                (sym (append-nil _))
        ]

    pub write_events-Appends :
        0 < length p.events
        → Appends store
            (stream_of tenant_id p)
            p
            db
            (write_events backend random_uuid now store tenant_id p db (hashes, vs)).0
            (write_events backend random_uuid now store tenant_id p db (hashes, vs)).1
    unfolding write_events
    write_events-Appends pos = record {
      expected = inr pass.was;
      next = refl;
      version =
          written_current (stream_of tenant_id p)
          ∙ rw (same_stream_refl (stream_of tenant_id p)) refl;
      loads = λ from b.
          written_load (stream_of tenant_id p) from b pos
          ∙ rw (same_stream_refl (stream_of tenant_id p)) refl;
      others = λ t from b n.
          written_load t from b pos ∙ rw (n, append-nil (load_stream store t from b db)) refl;
      consistent = write_events-IsConsistent pos;
    }
