-- ===== src/Postgres/Repository.antt =====
-- packages/core/src/repository.ts and packages/core/src/projections/inline-projector.ts, over the
-- event store and the snapshots of packages/postgres.
pub mod History
pub mod Loading
pub mod Fitting
pub mod Saving
pub mod Lost
pub mod Behind
use eventfabric.Base.{
  ℕ, zero, suc, ◌%◌, ◌==◌, ltb, ◌+◌, Str, codes, Bool, true, false, not, ◌&&◌, ◌||◌, Option, none,
  some, List, [], ◌∷◌, map, Result, ok, err, Error, Action, pure, ◌>>=◌, ◌>>◌, and_then, or_else,
  if◌then◌else◌,
}
use eventfabric.Core.Types.{Event, EventEnvelope}
use eventfabric.Core.Aggregate.{Aggregate, HandlerMap, load_from_history, pull_pending_events}
use eventfabric.Core.Projections.EventLog.{is_dismissed}
use eventfabric.Postgres.EventStore.Tables.{StreamId, Db, PgEventStore, Backend}
use eventfabric.Postgres.EventStore.Rows.{Meta, AppendParams, AppendResult}
use eventfabric.Postgres.EventStore.Append.{append}
use eventfabric.Postgres.EventStore.Reads.{load_stream}
use eventfabric.Postgres.Snapshots.{
  Snapshot, SnapshotRow, PgSnapshotStore, load_snapshot, save_snapshot,
}

-- `AsyncProcessorConfig`, where it is enabled.
pub record AsyncProcessor : Type 0 where
  pub topic : Option Str

-- What a repository is constructed with: `make` gives the state of a new aggregate from its id and
-- the state of a snapshot; an inline projection changes the read models.
pub record Repository (S P R A : Type 0) : Type 0 where
  pub aggregate_name : Str
  pub store : PgEventStore P
  pub make : Str → Option S → S
  pub handlers : HandlerMap S P
  pub inline_projector : Option (List (EventEnvelope P → Action A (Unit {0})))
  pub snapshot_store : Option (PgSnapshotStore S R)
  pub snapshot_policy : Option ℕ
  pub snapshot_schema_version : Option ℕ
  pub async_processor : Option AsyncProcessor

-- The database as a repository sees it.
pub record World (P R A : Type 0) : Type 0 where
  pub db : Db P
  pub snapshots : List (SnapshotRow R)
  pub models : A

pub record SaveParams : Type 0 where
  pub meta : Meta
  pub enqueue_outbox : Option Bool
  pub outbox_topic : Option Str
  pub force_snapshot : Bool

abbrev pub state_of : {S : Type 0} → Option (Snapshot S) → Option S
state_of none = none
state_of (some snap) = some snap.state

abbrev pub base_version : {S : Type 0} → Option (Snapshot S) → ℕ
base_version none = 0
base_version (some snap) = snap.aggregate_version

-- `InlineProjector.run`: each envelope that is not dismissed through each projection.
module _ {P A : Type 0} where
  unfoldable pub run_handlers :
      List (EventEnvelope P → Action A (Unit {0})) → EventEnvelope P → Action A (Unit {0})
  run_handlers [] env = pure tt
  run_handlers (p ∷ ps) env = p env >> run_handlers ps env

  unfoldable pub run_inline :
      List (EventEnvelope P → Action A (Unit {0})) → List (EventEnvelope P) → Action A (Unit {0})
  unfolding run_handlers
  run_inline ps [] = pure tt
  run_inline ps (env ∷ envs) =
      (if is_dismissed env.dismissed then pure tt else run_handlers ps env) >> run_inline ps envs

module _ {S P R A : Type 0} (repo : Repository S P R A) (tenant_id : Str) where
  abbrev pub stream : Str → StreamId
  stream id = record {
    tenant_id = tenant_id;
    aggregate_name = repo.aggregate_name;
    aggregate_id = id;
  }

  -- `new` aggregate, before its history.
  abbrev pub fresh : Str → ℕ → Option S → Aggregate S P
  fresh id version state = record {
    id = id;
    version = version;
    state = repo.make id state;
    pending = [];
  }

  -- What `loadFromHistory` is given.
  abbrev pub history_of : List (EventEnvelope P) → List (Event P × ℕ)
  history_of = map (λ env. (env.payload, env.aggregate_version))

  -- The aggregate, or the error that its history throws.
  abbrev pub loaded : Result (Unit {0}) × Aggregate S P → Result (Aggregate S P)
  loaded (ok u, agg) = ok agg
  loaded (err x, agg) = err x

  unfoldable pub load_behind : Str → Option (Snapshot S) → Db P → Result (Aggregate S P)
  unfolding load_from_history load_stream
  load_behind id snap db = loaded (
      load_from_history repo.handlers
        (history_of (load_stream repo.store (stream id) (suc (base_version snap)) false db))
        (fresh id (base_version snap) (state_of snap)))

  unfoldable pub find_snap : Str → World P R A → Result (Option (Snapshot S))
  unfolding load_snapshot
  find_snap id w = elim repo.snapshot_store [
    | none ↦ ok none
    | some snaps ↦ load_snapshot snaps (stream id) w.snapshots
  ]

  unfoldable pub load : Str → World P R A → Result (Aggregate S P)
  unfolding find_snap load_behind
  load id w = and_then (find_snap id w) (λ snap. load_behind id snap w.db)

  -- The parameters of the append for the pending events.
  abbrev pub topic_of : Option AsyncProcessor → Option Str
  topic_of none = none
  topic_of (some cfg) = cfg.topic

  abbrev pub is_enabled : Option AsyncProcessor → Bool
  is_enabled none = false
  is_enabled (some cfg) = true

  abbrev pub topic_or : Option Str → Option Str → Option Str
  topic_or none t = t
  topic_or (some t) u = some t

  abbrev pub append_params : SaveParams → Aggregate S P → AppendParams P
  append_params params agg = record {
    aggregate_name = repo.aggregate_name;
    aggregate_id = agg.id;
    expected_aggregate_version = agg.version;
    events = agg.pending;
    meta = params.meta;
    enqueue_outbox = or_else params.enqueue_outbox (is_enabled repo.async_processor);
    outbox_topic = topic_or params.outbox_topic (topic_of repo.async_processor);
  }

  -- `policy.everyNEvents > 0 && version % everyNEvents === 0`
  abbrev pub is_due : ℕ → ℕ → Bool
  is_due every version = ltb 0 every && (version % every == 0)

  abbrev pub snapshots_after :
      Option (PgSnapshotStore S R)
      → Bool
      → ℕ
      → Aggregate S P
      → List (SnapshotRow R)
      → List (SnapshotRow R)
  snapshots_after none force now agg rows = rows
  snapshots_after (some snaps) force now agg rows =
      if force || is_due (or_else repo.snapshot_policy 50) agg.version
      then save_snapshot snaps tenant_id
          (record {
            aggregate_name = repo.aggregate_name;
            aggregate_id = agg.id;
            aggregate_version = agg.version;
            created_at = now;
            snapshot_schema_version = or_else repo.snapshot_schema_version 1;
            state = agg.state;
          })
          rows
      else rows

  abbrev pub projected : List (EventEnvelope P) → Action A (Unit {0})
  projected envs = elim repo.inline_projector [ none ↦ pure tt | some ps ↦ run_inline ps envs ]

module _ {S P R A : Type 0} (backend : Backend P) (random_uuid : ℕ → Str) (now : ℕ)
    (repo : Repository S P R A) (tenant_id : Str) where
  -- Behind the append: the version of the aggregate, the inline projector, and the snapshot.
  unfoldable pub after_append :
      SaveParams
      → Aggregate S P
      → World P R A
      → AppendResult P
      → Db P
      → Result (Option (List (EventEnvelope P))) × (Aggregate S P × World P R A)
  unfolding run_inline save_snapshot
  after_append params agg w res db =
      let agg1 = record agg { version = res.next_aggregate_version } in
      let (r, models) = projected repo tenant_id res.appended w.models in
      elim r [
        | err x ↦ (err x, (agg1, w))
        | ok u ↦ (
          ok (some res.appended),
          (
            agg1,
            record {
              db = db;
              snapshots =
                  snapshots_after repo tenant_id repo.snapshot_store params.force_snapshot now agg1
                    w.snapshots;
              models = models;
            },
          ),
        )
      ]

  -- `save`. An error rolls the transaction back, so that the database is what it was; the
  -- aggregate, which is an object in memory, is not restored.
  unfoldable pub save :
      SaveParams
      → Aggregate S P
      → World P R A
      → Result (Option (List (EventEnvelope P))) × (Aggregate S P × World P R A)
  unfolding after_append
  save params agg w =
      let agg0 = (pull_pending_events agg).1 in
      elim agg.pending [
        | [] ↦ (ok none, (agg0, w))
        | e ∷ es ↦
            let (r, db) =
              append backend random_uuid now repo.store tenant_id
                (append_params repo tenant_id params agg) w.db in
            elim r [ err x ↦ (err x, (agg0, w)) | ok res ↦ after_append params agg0 w res db ]
      ]
