-- ===== src/Postgres/Tests/Dismissed.antt =====
-- A repository over a stream whose last event is dismissed, at concrete tables.
use eventfabric.Base.{
  ℕ, ◌≡◌, refl, codes, false, none, [], ◌∷◌, str_eq, includes, sort_by, decimal, ok, err, arith,
  Str, concurrency_error,
}
use eventfabric.Postgres.EventStore.Versions.{IsConsistent}
use eventfabric.Postgres.EventStore.Dismissals.{dismiss-IsConsistent}
use eventfabric.Postgres.Repository.Behind.{load-save_refused}
use eventfabric.Core.Aggregate.{Aggregate, replay}
use eventfabric.Postgres.EventStore.Tables.{Db, find_stream, same_stream}
use eventfabric.Postgres.EventStore.Rows.{version_conflict}
use eventfabric.Postgres.EventStore.Reads.{load_stream, dismiss}
use eventfabric.Postgres.EventStore.Append.{append}
use eventfabric.Postgres.Repository.{Repository, SaveParams, save, load, find_snap, stream}
use eventfabric.Postgres.Tests.{
  backend, uuids, plain_store, deposited, db_of_two, db_of_two-IsConsistent,
}
use eventfabric.Postgres.Tests.Account.{handlers, state_or, world_of}

abbrev plain_accounts : Repository ℕ ℕ ℕ (Unit {0})
plain_accounts = record {
  aggregate_name = codes "acct";
  store = plain_store;
  make = λ id s. state_or s;
  handlers = handlers;
  inline_projector = none;
  snapshot_store = none;
  snapshot_policy = none;
  snapshot_schema_version = none;
  async_processor = none;
}

abbrev second_dismissed : Db ℕ
unfolding dismiss
second_dismissed =
    dismiss (codes "t") (codes "b") (record { at = codes "now"; reason = none; by = none })
      db_of_two

-- The aggregate is loaded at version 1, the version of the last event that is left.
loaded_behind :
    load plain_accounts (codes "t") (codes "1") (world_of second_dismissed)
    ≡ ok (record { id = codes "1"; version = 1; state = 5; pending = [] })
unfolding load load_stream second_dismissed db_of_two dismiss append find_stream same_stream str_eq
    includes sort_by replay
loaded_behind = refl

abbrev loaded : Aggregate ℕ ℕ
loaded = record { id = codes "1"; version = 1; state = 14; pending = deposited 9 ∷ [] }

abbrev params : SaveParams
params = record {
  meta = record { correlation_id = none; causation_id = none };
  enqueue_outbox = none;
  outbox_topic = none;
  force_snapshot = false;
}

-- The stream is at version 2, so that the save is refused.
save_refused :
    (save backend uuids 1 plain_accounts (codes "t") params loaded (world_of second_dismissed)).0
    ≡ err (version_conflict 1 (stream plain_accounts (codes "t") (codes "1")) (decimal 2))
unfolding save second_dismissed db_of_two dismiss append find_stream same_stream str_eq includes
    sort_by
save_refused = refl

second_dismissed-IsConsistent : IsConsistent second_dismissed
unfolding second_dismissed
second_dismissed-IsConsistent =
    dismiss-IsConsistent (codes "t") (codes "b")
      (record { at = codes "now"; reason = none; by = none }) db_of_two db_of_two-IsConsistent

load-save_refused_example :
    let (r, (agg, w)) =
      save backend uuids 1 plain_accounts (codes "t") params loaded (world_of second_dismissed) in
    ((m : Str) × (r ≡ err (concurrency_error m))) × (w ≡ world_of second_dismissed)
unfolding second_dismissed db_of_two dismiss append find_stream same_stream str_eq includes
    find_snap
load-save_refused_example =
    load-save_refused backend uuids 1 plain_accounts (codes "t") (codes "1")
      (world_of second_dismissed) none
      (record { id = codes "1"; version = 1; state = 5; pending = [] }) loaded params
      second_dismissed-IsConsistent refl (λ h. absurd (omega (arith, h)), ((λ h. refl), tt)) refl
      (omega arith) loaded_behind refl refl (omega arith)
