-- ===== src/Postgres/Session/Save.antt =====
-- `saveChangesAsync` of packages/postgres/src/session.ts.
use eventfabric.Base.{
  ℕ, suc, ◌%◌, ◌==◌, ltb, Str, true, ◌&&◌, Option, none, some, List, [], ◌∷◌, ◌++◌, map, str_eq,
  sort_by, Result, ok, err, Dict, lookup, insert, if◌then◌else◌, Action, pure, ◌>>◌, or_else,
}
use eventfabric.Core.Types.{Event, EventEnvelope}
use eventfabric.Core.Aggregate.{Aggregate, load_from_history, pull_pending_events}
use eventfabric.Postgres.EventStore.Tables.{StreamVersion, Db, PgEventStore, Backend, find_stream}
use eventfabric.Postgres.EventStore.Rows.{Meta, AppendParams}
use eventfabric.Postgres.EventStore.Append.{append}
use eventfabric.Postgres.Snapshots.{PgSnapshotStore, save_snapshot}
use eventfabric.Postgres.Repository.{World, run_inline}
use eventfabric.Postgres.Session.{
  SessionConfig, PendingOperation, start, append_to, Session, infer, cannot_infer,
}

-- What the transaction keeps in memory: the events so far, and the new versions and the events by
-- the ids of the aggregates.
pub record Commit (S P R A : Type 0) : Type 0 where
  pub world : World P R A
  pub tracked : Dict (Aggregate S P)
  pub appended : List (EventEnvelope P)
  pub versions : Dict ℕ
  pub by_aggregate : Dict (List (EventEnvelope P))

abbrev pub operation_id : {P : Type 0} → PendingOperation P → Str
operation_id (start id es name) = id
operation_id (append_to id n es name) = id

abbrev pub operation_name : {P : Type 0} → PendingOperation P → Str
operation_name (start id es name) = name
operation_name (append_to id n es name) = name

abbrev pub operation_events : {P : Type 0} → PendingOperation P → List (Event P)
operation_events (start id es name) = es
operation_events (append_to id n es name) = es

-- `COALESCE(current_version, 0)` of the stream's row, 0 where there is none.
abbrev pub version_or_zero : Option StreamVersion → ℕ
version_or_zero none = 0
version_or_zero (some v) = v.current_version

-- `this.pendingOperations.find(p => p.aggregateId === aggregateId)`
abbrev pub find_operation :
    {P : Type 0} → Str → List (PendingOperation P) → Option (PendingOperation P)
find_operation id [] = none
find_operation id (op ∷ ops) =
    if str_eq (operation_id op) id then some op else find_operation id ops

abbrev pub some_loaded :
    {S P : Type 0} → Result (Unit {0}) × Aggregate S P → Result (Option (Aggregate S P))
some_loaded (ok u, agg) = ok (some agg)
some_loaded (err x, agg) = err x

module _ {S P R A : Type 0} (config : SessionConfig S P R A) where
  -- The pending events of each tracked aggregate become an operation, up to an error.
  unfoldable pub collect :
      Dict (Aggregate S P) → Dict (Aggregate S P) → Action (Session S P) (Unit {0})
  collect done [] session = (ok tt, record session { tracked = done })
  collect done ((id, agg) ∷ rest) session =
      let pulled = done ++ (id, (pull_pending_events agg).1) ∷ [] in
      elim agg.pending [
        | [] ↦ collect pulled rest session
        | e ∷ es ↦ elim (infer config e) [
          | none ↦ (err (cannot_infer e), record session { tracked = pulled ++ rest })
          | some cls ↦ collect pulled rest (record session {
            operations =
                session.operations
                ++ append_to id (some agg.version) (e ∷ es) cls.aggregate_name ∷ [];
          })
        ]
      ]

module _ {S P R A : Type 0} (backend : Backend P) (random_uuid : ℕ → ℕ → Str) (now : ℕ)
    (config : SessionConfig S P R A) (store : PgEventStore P) (tenant_id : Str) (meta : Meta) where
  abbrev pub expected_of : Db P → PendingOperation P → ℕ
  expected_of db (start id es name) = 0
  expected_of db (append_to id (some n) es name) = n
  expected_of db (append_to id none es name) = version_or_zero (
      find_stream (record { tenant_id = tenant_id; aggregate_name = name; aggregate_id = id })
        db.stream_versions)

  abbrev pub operation_params : Db P → PendingOperation P → AppendParams P
  operation_params db op = record {
    aggregate_name = operation_name op;
    aggregate_id = operation_id op;
    expected_aggregate_version = expected_of db op;
    events = operation_events op;
    meta = meta;
    enqueue_outbox = true;
    outbox_topic = lookup (operation_name op) config.outbox_topics;
  }

  -- Only an append moves the version of a tracked aggregate.
  abbrev pub retrack : PendingOperation P → ℕ → Dict (Aggregate S P) → Dict (Aggregate S P)
  retrack (start id es name) version tracked = tracked
  retrack (append_to id n es name) version tracked = elim (lookup id tracked) [
    | none ↦ tracked
    | some agg ↦ insert id (record agg { version = version }) tracked
  ]

  -- The operation of a number, in the transaction.
  unfoldable pub run_operation : ℕ → PendingOperation P → Action (Commit S P R A) (Unit {0})
  unfolding append
  run_operation i op c =
      let (r, db) =
        append backend (random_uuid i) now store tenant_id (operation_params c.world.db op)
          c.world.db in
      elim r [
        | err x ↦ (err x, c)
        | ok res ↦ (
          ok tt,
          record {
            world = record c.world { db = db };
            tracked = retrack op res.next_aggregate_version c.tracked;
            appended = c.appended ++ res.appended;
            versions = insert (operation_id op) res.next_aggregate_version c.versions;
            by_aggregate =
                insert (operation_id op)
                  (or_else (lookup (operation_id op) c.by_aggregate) [] ++ res.appended)
                  c.by_aggregate;
          },
        )
      ]

  unfoldable pub run_operations : ℕ → List (PendingOperation P) → Action (Commit S P R A) (Unit {0})
  unfolding run_operation
  run_operations i [] = pure tt
  run_operations i (op ∷ ops) = run_operation i op >> run_operations (suc i) ops

  unfoldable pub run_projector : Action (Commit S P R A) (Unit {0})
  unfolding run_inline
  run_projector c = elim config.inline_projector [
    | none ↦ (ok tt, c)
    | some ps ↦ elim c.appended [
      | [] ↦ (ok tt, c)
      | e ∷ es ↦
          let (r, models) = run_inline ps (e ∷ es) c.world.models in
          (r, record c { world = record c.world { models = models } })
    ]
  ]

  -- The aggregate that a snapshot is taken of, where it is not tracked: a new one, with the events
  -- of this transaction applied.
  unfoldable pub rebuilt : Str → Str → List (EventEnvelope P) → Result (Option (Aggregate S P))
  rebuilt name id envs = elim (lookup name config.classes) [
    | none ↦ ok none
    | some cls ↦ elim envs [
      | [] ↦ ok none
      | e ∷ es ↦ some_loaded (
          load_from_history cls.handlers
            (map (λ env. (env.payload, env.aggregate_version))
              (sort_by (λ env. env.aggregate_version) (e ∷ es)))
            (record { id = id; version = 0; state = cls.make id none; pending = [] }))
    ]
  ]

  abbrev pub snapshot_aggregate : Str → Str → Commit S P R A → Result (Option (Aggregate S P))
  snapshot_aggregate name id c = elim (lookup id c.tracked) [
    | some agg ↦ ok (some agg)
    | none ↦ rebuilt name id (or_else (lookup id c.by_aggregate) [])
  ]

  abbrev pub put_snapshot :
      PgSnapshotStore S R → Str → Str → ℕ → Aggregate S P → Commit S P R A → Commit S P R A
  put_snapshot snaps name id version agg c = record c {
    world = record c.world {
      snapshots =
          save_snapshot snaps tenant_id
            (record {
              aggregate_name = name;
              aggregate_id = id;
              aggregate_version = version;
              created_at = now;
              snapshot_schema_version = or_else (lookup name config.snapshot_schema_versions) 1;
              state = agg.state;
            })
            c.world.snapshots;
    };
  }

  -- The snapshot of one aggregate at its new version, where the policy asks for it.
  unfoldable pub snapshot_one :
      List (PendingOperation P) → Str → ℕ → Action (Commit S P R A) (Unit {0})
  snapshot_one ops id version c = elim (find_operation id ops) [
    | none ↦ (ok tt, c)
    | some op ↦ elim (lookup (operation_name op) config.snapshot_stores) [
      | none ↦ (ok tt, c)
      | some snaps ↦ elim (lookup (operation_name op) config.snapshot_policies) [
        | none ↦ (ok tt, c)
        | some every ↦
            if ltb 0 every && (version % every == 0)
            then elim (snapshot_aggregate (operation_name op) id c) [
              | err x ↦ (err x, c)
              | ok none ↦ (ok tt, c)
              | ok (some agg) ↦ (ok tt, put_snapshot snaps (operation_name op) id version agg c)
            ]
            else (ok tt, c)
      ]
    ]
  ]

  unfoldable pub snapshot_all :
      List (PendingOperation P) → Dict ℕ → Action (Commit S P R A) (Unit {0})
  unfolding snapshot_one
  snapshot_all ops [] = pure tt
  snapshot_all ops ((id, version) ∷ versions) =
      snapshot_one ops id version >> snapshot_all ops versions

  -- The body of the transaction.
  unfoldable pub commit : List (PendingOperation P) → Action (Commit S P R A) (Unit {0})
  unfolding run_operations run_projector snapshot_all
  commit ops = run_operations 0 ops >> run_projector >> λ c. snapshot_all ops c.versions c

  abbrev pub begin : Session S P → World P R A → Commit S P R A
  begin session w = record {
    world = w;
    tracked = session.tracked;
    appended = [];
    versions = [];
    by_aggregate = [];
  }

  -- The end of the transaction: an error restores the database, and leaves the session as the body
  -- left it; the operations are cleared after the commit.
  abbrev pub finish :
      Session S P
      → World P R A
      → Result (Unit {0}) × Commit S P R A
      → Result (Unit {0}) × (Session S P × World P R A)
  finish session w (err x, c) = (err x, (record session { tracked = c.tracked }, w))
  finish session w (ok u, c) = (ok tt, (record { operations = []; tracked = c.tracked }, c.world))

  abbrev pub save_operations :
      Session S P → World P R A → Result (Unit {0}) × (Session S P × World P R A)
  save_operations session w = elim session.operations [
    | [] ↦ (ok tt, (session, w))
    | op ∷ ops ↦ finish session w (commit (op ∷ ops) (begin session w))
  ]

  unfoldable pub save_changes :
      Session S P → World P R A → Result (Unit {0}) × (Session S P × World P R A)
  unfolding collect commit
  save_changes session w =
      let (r, session') = collect config [] session.tracked session in
      elim r [ err x ↦ (err x, (session', w)) | ok u ↦ save_operations session' w ]
