-- ===== src/Postgres/Session/Load.antt =====
-- `loadAggregateAsync` and `loadSnapshotAsync` of packages/postgres/src/session.ts.
use eventfabric.Base.{
  suc, Str, codes, false, ◌&&◌, Option, none, some, List, [], ◌∷◌, ◌++◌, map, str_eq, Result, ok,
  err, Error, thrown, lookup, insert, if◌then◌else◌, Action, and_then,
}
use eventfabric.Core.Types.{EventEnvelope}
use eventfabric.Core.Aggregate.{Aggregate, load_from_history}
use eventfabric.Postgres.EventStore.Tables.{StreamId, StreamVersion, PgEventStore}
use eventfabric.Postgres.EventStore.Reads.{load_stream}
use eventfabric.Postgres.Snapshots.{Snapshot, load_snapshot}
use eventfabric.Postgres.Repository.{World, state_of, base_version}
use eventfabric.Postgres.Session.{AggregateClass, SessionConfig, Session}

-- `SELECT aggregate_name ... WHERE tenant_id = $1 AND aggregate_id = $2 LIMIT 1`
unfoldable pub name_of : Str → Str → List StreamVersion → Option Str
name_of tenant_id id [] = none
name_of tenant_id id (v ∷ vs) =
    if str_eq v.stream.tenant_id tenant_id && str_eq v.stream.aggregate_id id
    then some v.stream.aggregate_name
    else name_of tenant_id id vs

-- The error, and what `loadAggregateAsync` says besides.
abbrev class_not_found : Str → Str → Error
class_not_found id advice = thrown (
    codes "Cannot load aggregate "
    ++ (id
        ++ (codes ": aggregate class not found. "
            ++ (codes
                  "Make sure to register the aggregate using session.registerAggregate() before loading."
                ++ advice))))

abbrev new_aggregate_advice : Str
new_aggregate_advice =
    codes " If this is a new aggregate, use session.startStream() to create it first."

module _ {S P R A : Type 0} (config : SessionConfig S P R A) (store : PgEventStore P)
    (tenant_id : Str) where
  abbrev pub session_stream : Str → Str → StreamId
  session_stream name id = record {
    tenant_id = tenant_id;
    aggregate_name = name;
    aggregate_id = id;
  }

  -- `loadStream`; the class need not be given.
  unfoldable pub load_class_stream :
      Str → Option (AggregateClass S P) → World P R A → Result (List (EventEnvelope P))
  unfolding load_stream
  load_class_stream id none w = err (
      thrown (
        codes "AggregateClass is required for loadStream. "
        ++ codes "Use store.loadStream() directly or provide AggregateClass."))
  load_class_stream id (some cls) w =
      if str_eq cls.aggregate_name []
      then err (thrown (codes "AggregateClass with aggregateName static property is required"))
      else ok (load_stream store (session_stream cls.aggregate_name id) 1 false w.db)

  abbrev pub named : Str → Option Str → Option (Str × AggregateClass S P)
  named id none = none
  named id (some name) = elim (lookup name config.classes) [
    | none ↦ none
    | some cls ↦ some (name, cls)
  ]

  -- The name and the class of the aggregate with an id.
  abbrev pub class_of : Str → Str → World P R A → Result (Str × AggregateClass S P)
  class_of advice id w = elim (named id (name_of tenant_id id w.db.stream_versions)) [
    | none ↦ err (class_not_found id advice)
    | some c ↦ ok c
  ]

  abbrev pub session_snapshot : Str → Str → World P R A → Result (Option (Snapshot S))
  session_snapshot name id w = elim (lookup name config.snapshot_stores) [
    | none ↦ ok none
    | some snaps ↦ load_snapshot snaps (session_stream name id) w.snapshots
  ]

  abbrev pub aggregate_or : Result (Unit {0}) × Aggregate S P → Result (Aggregate S P)
  aggregate_or (ok u, agg) = ok agg
  aggregate_or (err x, agg) = err x

  -- The new instance with the events behind the snapshot, or with all of them.
  unfoldable pub rebuild : Str → AggregateClass S P → Str → World P R A → Result (Aggregate S P)
  unfolding load_stream load_from_history load_snapshot
  rebuild name cls id w = and_then (session_snapshot name id w) (λ snap. aggregate_or (
      load_from_history cls.handlers
        (map (λ env. (env.payload, env.aggregate_version))
          (load_stream store (session_stream name id) (suc (base_version snap)) false w.db))
        (record {
          id = id;
          version = base_version snap;
          state = cls.make id (state_of snap);
          pending = [];
        })))

  -- The identity map first: one instance for each id.
  unfoldable pub load_aggregate : Str → World P R A → Action (Session S P) (Aggregate S P)
  unfolding rebuild name_of
  load_aggregate id w session = elim (lookup id session.tracked) [
    | some agg ↦ (ok agg, session)
    | none ↦
        elim (and_then (class_of new_aggregate_advice id w)
          (λ (name, cls). rebuild name cls id w)) [
            | err x ↦ (err x, session)
            | ok agg ↦ (ok agg, record session { tracked = insert id agg session.tracked })
          ]
  ]

  abbrev pub only_snapshot : Str → AggregateClass S P → Str → World P R A → Result (Aggregate S P)
  only_snapshot name cls id w = elim (lookup name config.snapshot_stores) [
    | none ↦ err (thrown (codes "No snapshot store registered for aggregate " ++ name))
    | some snaps ↦ and_then (load_snapshot snaps (session_stream name id) w.snapshots) (λ snap.
        elim snap [
          | none ↦
              err (thrown (codes "No snapshot found for aggregate " ++ (name ++ (codes ":" ++ id))))
          | some s ↦ ok (record {
            id = id;
            version = s.aggregate_version;
            state = cls.make id (some s.state);
            pending = [];
          })
        ])
  ]

  unfoldable pub load_snapshot_only : Str → World P R A → Action (Session S P) (Aggregate S P)
  unfolding name_of
  load_snapshot_only id w session =
      elim (and_then (class_of [] id w) (λ (name, cls). only_snapshot name cls id w)) [
        | err x ↦ (err x, session)
        | ok agg ↦ (ok agg, record session { tracked = insert id agg session.tracked })
      ]
