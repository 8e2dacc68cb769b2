-- ===== src/Postgres/Tests/Sessions.antt =====
-- A session of accounts at concrete tables.
use eventfabric.Base.{
  ℕ, ◌≡◌, refl, codes, false, none, some, [], ◌∷◌, ◌++◌, str_eq, sort_by, ok, err, thrown, lookup,
  insert,
}
use eventfabric.Core.Types.{EventEnvelope}
use eventfabric.Core.Aggregate.{replay, load_from_history}
use eventfabric.Postgres.EventStore.Tables.{find_stream, same_stream, set_stream}
use eventfabric.Postgres.EventStore.Rows.{Meta}
use eventfabric.Postgres.EventStore.Append.{append}
use eventfabric.Postgres.Snapshots.{save_snapshot}
use eventfabric.Postgres.Session.{
  AggregateClass, SessionConfig, PendingOperation, append_to, Session,
}
use eventfabric.Postgres.Session.Factory.{
  TenantResolver, per_database, get_pool, add_tenant, create_session,
}
use eventfabric.Postgres.Session.Save.{Commit, snapshot_one, save_changes, rebuilt}
use eventfabric.Postgres.Session.Untracked.{snapshot_one-untracked}
use eventfabric.Postgres.Session.Written.{queued_writes, tracked_writes}
use eventfabric.Postgres.Snapshots.{SnapshotRow, find_snapshot}
use eventfabric.Postgres.Session.Consistent.{SavesChanges, save_changes-SavesChanges}
use eventfabric.Postgres.Tests.{
  backend, uuids, plain_store, deposited, db_of_two, db_of_two-IsConsistent,
}
use eventfabric.Postgres.Tests.Account.{handlers, snaps, state_or, world_of}

abbrev account_class : AggregateClass ℕ ℕ
account_class = record {
  aggregate_name = codes "acct";
  make = λ id s. state_or s;
  handlers = handlers;
  tamper_evident = false;
}

-- A snapshot at every third event.
abbrev config : SessionConfig ℕ ℕ ℕ (Unit {0})
config = record {
  event_types = (codes "D", account_class) ∷ [];
  classes = (codes "acct", account_class) ∷ [];
  snapshot_stores = (codes "acct", snaps) ∷ [];
  snapshot_policies = (codes "acct", 3) ∷ [];
  snapshot_schema_versions = [];
  outbox_topics = [];
  inline_projector = none;
}

abbrev no_meta : Meta
no_meta = record { correlation_id = none; causation_id = none }

-- A third deposit, to an account that the session has not loaded.
abbrev third : PendingOperation ℕ
third = append_to (codes "1") (some 2) (deposited 9 ∷ []) (codes "acct")

abbrev session : Session ℕ ℕ
session = record { operations = third ∷ []; tracked = [] }

save_changes-SavesChanges_example :
    SavesChanges backend
      (λ n. uuids)
      1
      config
      plain_store
      (codes "t")
      no_meta
      (queued_writes backend (codes "t") (third ∷ [])
        ++ tracked_writes backend (codes "t") config [])
      (world_of db_of_two)
      (save_changes backend
        (λ n. uuids)
        1
        config
        plain_store
        (codes "t")
        no_meta
        session
        (world_of db_of_two))
save_changes-SavesChanges_example =
    save_changes-SavesChanges backend (λ n. uuids) 1 config plain_store (codes "t") no_meta session
      (world_of db_of_two) db_of_two-IsConsistent

abbrev envelope : EventEnvelope ℕ
envelope = record {
  event_id = codes "a";
  tenant_id = codes "t";
  aggregate_name = codes "acct";
  aggregate_id = codes "1";
  aggregate_version = 3;
  global_position = 3;
  occurred_at = 1;
  payload = deposited 9;
  dismissed = none;
  correlation_id = none;
  causation_id = none;
}

abbrev mid_commit : Commit ℕ ℕ ℕ (Unit {0})
mid_commit = record {
  world = world_of db_of_two;
  tracked = [];
  appended = envelope ∷ [];
  versions = (codes "1", 3) ∷ [];
  by_aggregate = (codes "1", envelope ∷ []) ∷ [];
}

-- The account holds 12 and 9 more; the snapshot of version 3 has 9.
snapshot_one-untracked_example :
    let (r, c') =
      snapshot_one backend
        (λ n. uuids)
        1
        config
        plain_store
        (codes "t")
        no_meta
        (third ∷ [])
        (codes "1")
        3
        mid_commit in
    (r ≡ ok tt)
    × ((row : SnapshotRow ℕ) × (find_snapshot
            (record {
              tenant_id = codes "t";
              aggregate_name = codes "acct";
              aggregate_id = codes "1";
            })
            c'.world.snapshots
          ≡ some row)
        × (row.aggregate_version ≡ 3)
        × (row.state ≡ snaps.to_jsonb 9))
    × (c'.world.db ≡ mid_commit.world.db)
    × (c'.tracked ≡ mid_commit.tracked)
unfolding str_eq lookup replay find_snapshot
snapshot_one-untracked_example =
    snapshot_one-untracked backend (λ n. uuids) 1 config plain_store (codes "t") no_meta
      (third ∷ []) third (codes "1") 3 3 mid_commit snaps account_class envelope [] 9 refl refl refl
      refl refl refl refl (tt, tt) refl (λ r stored. cc)

snapshot_of_third :
    (save_changes backend
      (λ n. uuids)
      1
      config
      plain_store
      (codes "t")
      no_meta
      session
      (world_of db_of_two)).1.1.snapshots
    ≡ record {
      stream = record {
        tenant_id = codes "t";
        aggregate_name = codes "acct";
        aggregate_id = codes "1";
      };
      aggregate_version = 3;
      created_at = 1;
      snapshot_schema_version = 1;
      state = 9;
    }
      ∷ []
unfolding save_changes append find_stream same_stream set_stream str_eq lookup db_of_two
    load_from_history sort_by rebuilt insert save_snapshot
snapshot_of_third = refl

-- Of two databases, the one of the tenant; no tenant is the tenant "default".
abbrev databases : TenantResolver ℕ
databases = per_database ((codes "acme", 1) ∷ (codes "contoso", 2) ∷ [])

session_of_contoso :
    create_session {S = ℕ} {P = ℕ} databases (some (codes "contoso"))
    ≡ ok (2, (codes "contoso", record { operations = []; tracked = [] }))
unfolding create_session get_pool lookup str_eq
session_of_contoso = refl

no_default_database :
    create_session {S = ℕ} {P = ℕ} databases none
    ≡ err (
        thrown
          (codes "No pool configured for tenant \"default\". Available tenants: acme, contoso"))
unfolding create_session get_pool lookup str_eq
no_default_database = refl

-- A tenant is added once.
added_twice :
    (add_tenant {Pool = ℕ} (codes "acme") 3 ((codes "acme", 1) ∷ [])).1 ≡ ((codes "acme", 1) ∷ [])
unfolding add_tenant lookup str_eq
added_twice = refl
