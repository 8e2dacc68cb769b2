-- ===== src/Postgres/EventStore/Append.antt =====
-- `append` and `startStream` of packages/postgres/src/pg-event-store.ts. Errors are thrown before
-- anything is written, and a unique violation aborts the statement.
pub mod Gate
pub mod NewRows
pub mod Written
pub mod RoundTrip
pub mod Expected
use eventfabric.Base.{
  ℕ, zero, suc, ◌+◌, ◌==◌, Str, codes, Bool, true, false, not, ◌&&◌, Option, none, some, List, [],
  ◌∷◌, ◌++◌, map, str_eq, includes, decimal, length, if◌then◌else◌, Result, ok, err, Error,
  concurrency_error, thrown, and_then,
}
use eventfabric.Core.Types.{Event, EventEnvelope, Dismissal}
use eventfabric.Core.Projections.Outbox.{Outbox, OutboxEntry}
use eventfabric.Core.Integrity.HashChain.{Host, ChainableEvent, compute_event_hash, stream_genesis}
use eventfabric.Postgres.EventStore.Tables.{
  StreamId, StreamVersion, EventRow, Db, PgEventStore, Backend, find_stream, set_stream,
}
use eventfabric.Postgres.EventStore.Rows.{
  Meta, AppendParams, AppendResult, version_conflict, already_exists, is_chained, map_row,
  chain_batch, new_rows,
}

-- A row with the position is there: `ON CONFLICT (global_position) DO NOTHING`.
abbrev has_position : ℕ → List OutboxEntry → Bool
has_position n [] = false
has_position n (e ∷ es) = if e.global_position == n then true else has_position n es

-- One row of the outbox for each of the envelopes, the ids from the sequence.
unfoldable pub enqueue :
    {P : Type 0}
    → Str
    → Option Str
    → ℕ
    → List (EventEnvelope P)
    → List OutboxEntry
    → List OutboxEntry
enqueue tenant_id topic id [] rows = rows
enqueue tenant_id topic id (env ∷ envs) rows =
    let entry : OutboxEntry = record {
      id = id;
      tenant_id = tenant_id;
      global_position = env.global_position;
      topic = topic;
      attempts = 0;
      locked_by = none;
      last_error = none;
    } in
    enqueue tenant_id topic (suc id) envs
      (if has_position env.global_position rows then rows else rows ++ entry ∷ [])

abbrev pub stream_of : {P : Type 0} → Str → AppendParams P → StreamId
stream_of tenant_id p = record {
  tenant_id = tenant_id;
  aggregate_name = p.aggregate_name;
  aggregate_id = p.aggregate_id;
}

-- What passing the gate gives: the hashes of the events, and the new `stream_versions`.
abbrev pub Gate : Type 0
Gate = Result (List (Option Str) × List StreamVersion)

-- The INSERT of a new stream's row.
abbrev pub insert_stream : StreamId → ℕ → Option Str → List (Option Str) → List StreamVersion → Gate
insert_stream s n head hashes vs = elim (find_stream s vs) [
  | some v ↦ err (already_exists s)
  | none ↦ ok (hashes, vs ++ record { stream = s; current_version = n; head_hash = head } ∷ [])
]

module _ {P : Type 0} where
  abbrev pub no_hashes : AppendParams P → List (Option Str)
  no_hashes p = map (λ _. none) p.events

  -- A stream that is not chained: the UPDATE has the version in its condition and leaves the head.
  unfoldable pub plain_gate : StreamId → AppendParams P → List StreamVersion → Gate
  plain_gate s p vs = elim (find_stream s vs) [
    | none ↦ err (version_conflict p.expected_aggregate_version s (codes "(stream not found)"))
    | some v ↦
        if v.current_version == p.expected_aggregate_version
        then ok (
          no_hashes p,
          set_stream s (p.expected_aggregate_version + length p.events) v.head_hash vs,
        )
        else err (version_conflict p.expected_aggregate_version s (decimal v.current_version))
  ]

-- `row.head_hash ?? streamGenesis(...)`
abbrev pub previous_hash : {P : Type 0} → Backend P → Str → StreamId → Option Str → Result Str
previous_hash backend secret s none =
    stream_genesis backend.host secret s.tenant_id s.aggregate_name s.aggregate_id
previous_hash backend secret s (some head) = ok head

module _ {P : Type 0} (backend : Backend P) (random_uuid : ℕ → Str) where
  -- `expectedAggregateVersion === 0`
  unfoldable pub start_gate : Option Str → StreamId → AppendParams P → List StreamVersion → Gate
  start_gate none s p vs = insert_stream s (length p.events) none (no_hashes p) vs
  start_gate (some secret) s p vs =
      and_then (stream_genesis backend.host secret s.tenant_id s.aggregate_name s.aggregate_id)
        (λ genesis.
          and_then (chain_batch backend random_uuid secret s p.meta 0 0 genesis p.events)
            (λ (hashes, head). insert_stream s (length p.events) (some head) hashes vs))

  -- A chained stream that exists: its row is locked and read.
  unfoldable pub chained_gate : Str → StreamId → AppendParams P → List StreamVersion → Gate
  chained_gate secret s p vs = elim (find_stream s vs) [
    | none ↦ err (version_conflict p.expected_aggregate_version s (codes "(stream not found)"))
    | some v ↦
        if v.current_version == p.expected_aggregate_version
        then and_then (previous_hash backend secret s v.head_hash) (λ prev.
          and_then
            (chain_batch backend random_uuid secret s p.meta p.expected_aggregate_version 0 prev
              p.events)
            (λ (hashes, head). ok (
              hashes,
              set_stream s (p.expected_aggregate_version + length p.events) (some head) vs,
            )))
        else err (version_conflict p.expected_aggregate_version s (decimal v.current_version))
  ]

module _ {P : Type 0} (backend : Backend P) (random_uuid : ℕ → Str) (store : PgEventStore P) where
  unfoldable pub gate : StreamId → AppendParams P → List StreamVersion → Gate
  unfolding start_gate chained_gate plain_gate
  gate s p vs =
      if p.expected_aggregate_version == 0
      then start_gate backend random_uuid (is_chained store p.aggregate_name) s p vs
      else elim (is_chained store p.aggregate_name) [
        | some secret ↦ chained_gate backend random_uuid secret s p vs
        | none ↦ plain_gate s p vs
      ]

module _ {P : Type 0} (backend : Backend P) (random_uuid : ℕ → Str) (now : ℕ)
    (store : PgEventStore P) where
  -- The rows that the call inserts.
  abbrev pub inserted_rows :
      StreamId → AppendParams P → List (Option Str) → Db P → List (EventRow P)
  inserted_rows s p hashes db =
      new_rows backend random_uuid now s p.meta p.expected_aggregate_version 0 db.next_position
        hashes p.events

  -- The INSERTs behind the gate.
  unfoldable pub write_events :
      Str → AppendParams P → Db P → List (Option Str) × List StreamVersion → AppendResult P × Db P
  unfolding new_rows map_row enqueue
  write_events tenant_id p db (hashes, vs) =
      let rows = inserted_rows (stream_of tenant_id p) p hashes db in
      let envs = map (map_row store) rows in
      (
        record {
          appended = envs;
          next_aggregate_version = p.expected_aggregate_version + length p.events;
        },
        record db {
          events = db.events ++ rows;
          stream_versions = vs;
          next_position = db.next_position + length p.events;
          outbox =
              if p.enqueue_outbox
              then record {
                rows = enqueue tenant_id p.outbox_topic db.next_outbox_id envs db.outbox.rows;
                dead_letters = db.outbox.dead_letters;
              }
              else db.outbox;
          next_outbox_id =
              if p.enqueue_outbox then db.next_outbox_id + length p.events else db.next_outbox_id;
        },
      )

  unfoldable pub append : Str → AppendParams P → Db P → Result (AppendResult P) × Db P
  unfolding gate write_events
  append tenant_id p db = elim p.events [
    | [] ↦
        (ok (record { appended = []; next_aggregate_version = p.expected_aggregate_version }), db)
    | e ∷ es ↦ elim (gate backend random_uuid store (stream_of tenant_id p) p db.stream_versions) [
      | err x ↦ (err x, db)
      | ok g ↦ (ok (write_events tenant_id p db g).0, (write_events tenant_id p db g).1)
    ]
  ]

  -- `startStream` of a class that has an aggregate name.
  unfoldable pub start_stream :
      Str → Str → Str → List (Event P) → Db P → Result (AppendResult P) × Db P
  unfolding append
  start_stream tenant_id aggregate_id aggregate_name [] db =
      (err (thrown (codes "At least one event is required to start a stream")), db)
  start_stream tenant_id aggregate_id aggregate_name (e ∷ es) db =
      append tenant_id
        (record {
          aggregate_name = aggregate_name;
          aggregate_id = aggregate_id;
          expected_aggregate_version = 0;
          events = e ∷ es;
          meta = record { correlation_id = none; causation_id = none };
          enqueue_outbox = false;
          outbox_topic = none;
        })
        db
