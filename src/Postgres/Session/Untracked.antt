-- ===== src/Postgres/Session/Untracked.antt =====
-- The snapshot that `saveChangesAsync` of packages/postgres/src/session.ts takes of an aggregate
-- that the session has not loaded.
use eventfabric.Base.{
  ℕ, ltb, ◌==◌, ◌%◌, ◌≡◌, refl, ap, ◌∙◌, Str, true, ◌&&◌, none, some, List, [], ◌∷◌, map, ok,
  lookup, SortedBy, sort_by_sorted, ◌≤◌, arith, Bool-cases, inl, inr, or_else,
}
use eventfabric.Core.Types.{EventEnvelope}
use eventfabric.Core.Aggregate.{Aggregate, replay, load_from_history}
use eventfabric.Core.Aggregate.Replay.{last_loaded, load_from_history-replay}
use eventfabric.Postgres.EventStore.Tables.{
  Backend, PgEventStore, StreamId, same_stream, same_stream_refl,
}
use eventfabric.Postgres.EventStore.Rows.{Meta}
use eventfabric.Postgres.Snapshots.{
  PgSnapshotStore, SnapshotRow, find_snapshot, upsert_snapshot, row_of, save_snapshot,
}
use eventfabric.Postgres.Repository.Loading.{payloads, history_payloads}
use eventfabric.Postgres.Session.{AggregateClass, SessionConfig, PendingOperation}
use eventfabric.Postgres.Session.Save.{
  Commit, operation_name, find_operation, rebuilt, some_loaded, snapshot_one, put_snapshot,
}

-- The upsert leaves the new row for its stream, unless a later one is there.
find_snapshot-upserted :
    {R : Type 0} (new : SnapshotRow R) (rows : List (SnapshotRow R))
    → ((r : SnapshotRow R)
        → find_snapshot new.stream rows ≡ some r
        → r.aggregate_version ≤ new.aggregate_version)
    → find_snapshot new.stream (upsert_snapshot new rows) ≡ some new
unfolding find_snapshot upsert_snapshot
find_snapshot-upserted new [] late = ground (arith, same_stream_refl new.stream)
find_snapshot-upserted new (r ∷ rows) late = elim (Bool-cases (same_stream r.stream new.stream)) [
  | inl same ↦
      let below : r.aggregate_version ≤ new.aggregate_version = late r (rw same refl) in
      ground (arith, same_stream_refl new.stream, same, below)
  | inr other ↦
      let rest = find_snapshot-upserted new rows (λ q f. late q (rw other f)) in
      ground (arith, other, rest)
]

module _ {S P R A : Type 0} (backend : Backend P) (random_uuid : ℕ → ℕ → Str) (now : ℕ)
    (config : SessionConfig S P R A) (store : PgEventStore P) (tenant_id : Str) (meta : Meta) where
  -- The stream of an operation's aggregate.
  abbrev stream_at : PendingOperation P → Str → StreamId
  stream_at op id = record {
    tenant_id = tenant_id;
    aggregate_name = operation_name op;
    aggregate_id = id;
  }

  rebuilt_lem :
      (name id : Str) (cls : AggregateClass S P) (e : EventEnvelope P) (es : List (EventEnvelope P))
      (s : S)
      → lookup name config.classes ≡ some cls
      → SortedBy (λ env. env.aggregate_version) (e ∷ es)
      → replay cls.handlers (cls.make id none) (payloads (e ∷ es)) ≡ some s
      → rebuilt backend random_uuid now config store tenant_id meta name id (e ∷ es)
        ≡ ok (
            some (record {
              id = id;
              version = last_loaded 0 (map (λ env. (env.payload, env.aggregate_version)) (e ∷ es));
              state = s;
              pending = [];
            }))
  unfolding rebuilt
  rebuilt_lem name id cls e es s known order r =
      let sorted =
        sort_by_sorted (λ (env : EventEnvelope P). env.aggregate_version) (e ∷ es) order in
      let done =
        load_from_history-replay cls.handlers
          (map (λ (env : EventEnvelope P). (env.payload, env.aggregate_version)) (e ∷ es))
          (record { id = id; version = 0; state = cls.make id none; pending = [] })
          (ap (replay cls.handlers (cls.make id none)) (history_payloads (e ∷ es)) ∙ r) in
      rw (rebuilt, known)
        (ap
            (λ l. some_loaded (
              load_from_history cls.handlers
                (map (λ (env : EventEnvelope P). (env.payload, env.aggregate_version)) l)
                (record { id = id; version = 0; state = cls.make id none; pending = [] })))
            sorted
          ∙ ap some_loaded done)

  -- Where a snapshot is due of an aggregate that is not tracked, and no later one is stored: the
  -- stored snapshot of the stream then says that it stands at the new version, and has the state
  -- that the events of this transaction alone lead to from a new aggregate, whatever the stream
  -- held before; the tables and what is tracked stay as they are.
  pub snapshot_one-untracked :
      (ops : List (PendingOperation P)) (op : PendingOperation P) (id : Str) (version every : ℕ)
      (c : Commit S P R A) (snaps : PgSnapshotStore S R) (cls : AggregateClass S P)
      (e : EventEnvelope P) (es : List (EventEnvelope P)) (s : S)
      → find_operation id ops ≡ some op
      → lookup (operation_name op) config.snapshot_stores ≡ some snaps
      → lookup (operation_name op) config.snapshot_policies ≡ some every
      → (ltb 0 every && (version % every == 0)) ≡ true
      → lookup id c.tracked ≡ none
      → lookup id c.by_aggregate ≡ some (e ∷ es)
      → lookup (operation_name op) config.classes ≡ some cls
      → SortedBy (λ env. env.aggregate_version) (e ∷ es)
      → replay cls.handlers (cls.make id none) (payloads (e ∷ es)) ≡ some s
      → ((r : SnapshotRow R)
          → find_snapshot (stream_at op id) c.world.snapshots ≡ some r
          → r.aggregate_version ≤ version)
      → let (r, c') =
          snapshot_one backend random_uuid now config store tenant_id meta ops id version c in
        (r ≡ ok tt)
        × ((row : SnapshotRow R) × (find_snapshot (stream_at op id) c'.world.snapshots ≡ some row)
            × (row.aggregate_version ≡ version)
            × (row.state ≡ snaps.to_jsonb s))
        × (c'.world.db ≡ c.world.db)
        × (c'.tracked ≡ c.tracked)
  unfolding snapshot_one save_snapshot
  snapshot_one-untracked ops op id version every c snaps cls e es s found kept policy due untracked
        events known order r late =
      let name = operation_name op in
      let made = rebuilt_lem name id cls e es s known order r in
      let loaded =
        last_loaded 0
          (map (λ (env : EventEnvelope P). (env.payload, env.aggregate_version)) (e ∷ es)) in
      let agg : Aggregate S P = record { id = id; version = loaded; state = s; pending = [] } in
      let written : snapshot_one backend random_uuid now config store tenant_id meta ops id version
            c
          ≡ (
            ok tt,
            put_snapshot backend random_uuid now config store tenant_id meta snaps name id version
                agg c,
          ) =
        rw (snapshot_one, found, kept, policy, due, untracked, events, made) refl in
      let new : SnapshotRow R = row_of snaps tenant_id (record {
        aggregate_name = name;
        aggregate_id = id;
        aggregate_version = version;
        created_at = now;
        snapshot_schema_version = or_else (lookup name config.snapshot_schema_versions) 1;
        state = s;
      }) in
      rw written
        (refl, (new, find_snapshot-upserted new c.world.snapshots late, refl, refl), refl, refl)
