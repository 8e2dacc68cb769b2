-- ===== src/Postgres/Tests/Account.antt =====
-- A repository of accounts at concrete tables.
use eventfabric.Base.{
  ℕ, ◌+◌, ◌≡◌, refl, codes, false, Option, none, some, [], ◌∷◌, str_eq, sort_by, ok, if◌then◌else◌,
}
use eventfabric.Core.Aggregate.{Aggregate, HandlerMap, replay}
use eventfabric.Postgres.EventStore.Tables.{Db, find_stream, same_stream}
use eventfabric.Postgres.EventStore.Rows.{already_exists}
use eventfabric.Postgres.EventStore.Reads.{load_stream}
use eventfabric.Postgres.EventStore.Append.{append}
use eventfabric.Postgres.Snapshots.{PgSnapshotStore, find_snapshot}
use eventfabric.Postgres.Repository.{Repository, World, SaveParams, save, load, stream}
use eventfabric.Postgres.Repository.Loading.{load-replay}
use eventfabric.Postgres.Repository.Saving.{Stands, Saves, save-load}
use eventfabric.Postgres.Repository.Lost.{save_again}
use eventfabric.Postgres.Tests.{
  backend, uuids, plain_store, empty_db, deposited, empty_db-IsConsistent, db_of_two,
}

abbrev pub handlers : HandlerMap ℕ ℕ
handlers t = if str_eq t (codes "D") then some (λ s e. s + e.body) else none

abbrev pub snaps : PgSnapshotStore ℕ ℕ
snaps = record {
  current_schema_version = 1;
  upcasters = λ n. none;
  as_state = λ r. r;
  to_jsonb = λ s. s;
}

abbrev pub state_or : Option ℕ → ℕ
state_or none = 0
state_or (some s) = s

-- An account with a snapshot at every second event.
abbrev accounts : Repository ℕ ℕ ℕ (Unit {0})
accounts = record {
  aggregate_name = codes "acct";
  store = plain_store;
  make = λ id s. state_or s;
  handlers = handlers;
  inline_projector = none;
  snapshot_store = some snaps;
  snapshot_policy = some 2;
  snapshot_schema_version = none;
  async_processor = none;
}

abbrev account : Aggregate ℕ ℕ
account = record {
  id = codes "1";
  version = 0;
  state = 12;
  pending = deposited 5 ∷ deposited 7 ∷ [];
}

abbrev pub world_of : Db ℕ → World ℕ ℕ (Unit {0})
world_of db = record { db = db; snapshots = []; models = tt }

abbrev params : SaveParams
params = record {
  meta = record { correlation_id = none; causation_id = none };
  enqueue_outbox = none;
  outbox_topic = none;
  force_snapshot = false;
}

account-Stands : Stands accounts (codes "t") account (world_of empty_db)
unfolding load_stream sort_by find_stream find_snapshot replay str_eq
account-Stands = record {
  consistent = empty_db-IsConsistent;
  undismissed = λ from. refl;
  fits = λ r h. cc;
  version = refl;
  base = 0;
  stored = refl;
  raised = refl;
}

save-load_example :
    Saves accounts
      (codes "t")
      account
      (world_of empty_db)
      (save backend uuids 0 accounts (codes "t") params account (world_of empty_db))
save-load_example =
    save-load backend uuids 0 accounts (codes "t") (refl, λ s. refl) (λ id s. refl) (λ e. refl)
      params account (world_of empty_db) account-Stands

abbrev saved : Aggregate ℕ ℕ × World ℕ ℕ (Unit {0})
unfolding save
saved = (save backend uuids 0 accounts (codes "t") params account (world_of empty_db)).1

saved-Stands : Stands accounts (codes "t") saved.0 saved.1
unfolding save saved find_stream append
saved-Stands = let saves = save-load_example in saves.0

saved_snapshot :
    saved.1.snapshots
    ≡ record {
      stream = stream accounts (codes "t") (codes "1");
      aggregate_version = 2;
      created_at = 0;
      snapshot_schema_version = 1;
      state = 12;
    }
      ∷ []
unfolding save saved find_stream append
saved_snapshot = refl

load-replay_example :
    load accounts (codes "t") saved.0.id saved.1
    ≡ ok (record { id = saved.0.id; version = 2; state = 12; pending = [] })
unfolding save saved append find_stream same_stream str_eq load_stream sort_by replay
load-replay_example =
    load-replay accounts (codes "t") saved.0.id saved.1 12 saved-Stands.consistent
      saved-Stands.undismissed saved-Stands.fits refl

save_again_example :
    let late = (save backend uuids 0 accounts (codes "t") params account (world_of db_of_two)).1 in
    (late.1 ≡ world_of db_of_two)
    × (save backend uuids 0 accounts (codes "t") params late.0 (world_of db_of_two)
        ≡ (ok none, (late.0, world_of db_of_two)))
unfolding save append find_stream same_stream str_eq db_of_two
save_again_example =
    save_again backend uuids 0 accounts (codes "t") params params account (world_of db_of_two)
      (world_of db_of_two) (already_exists (stream accounts (codes "t") (codes "1"))) refl
