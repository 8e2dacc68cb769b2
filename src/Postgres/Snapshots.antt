-- ===== src/Postgres/Snapshots.antt =====
-- packages/postgres/src/snapshots/pg-snapshot-store.ts. A stored state is a value of jsonb.
use eventfabric.Base.{
  ℕ, ◌==◌, leb, Str, codes, Option, none, some, List, [], ◌∷◌, ◌++◌, Result, ok, err, thrown,
  and_then, decimal, if◌then◌else◌,
}
use eventfabric.Postgres.EventStore.Tables.{StreamId, same_stream}

pub record Snapshot (S : Type 0) : Type 0 where
  pub aggregate_name : Str
  pub aggregate_id : Str
  pub aggregate_version : ℕ
  pub created_at : ℕ
  pub snapshot_schema_version : ℕ
  pub state : S

-- A row of `snapshots`, whose key is the stream.
pub record SnapshotRow (R : Type 0) : Type 0 where
  pub stream : StreamId
  pub aggregate_version : ℕ
  pub created_at : ℕ
  pub snapshot_schema_version : ℕ
  pub state : R

-- What the store is constructed with, the cast of a stored value to a state, and what
-- `JSON.stringify` and the column make of a state.
pub record PgSnapshotStore (S R : Type 0) : Type 0 where
  pub current_schema_version : ℕ
  pub upcasters : ℕ → Option (R → S)
  pub as_state : R → S
  pub to_jsonb : S → R

unfoldable pub find_snapshot :
    {R : Type 0} → StreamId → List (SnapshotRow R) → Option (SnapshotRow R)
find_snapshot s [] = none
find_snapshot s (r ∷ rs) = if same_stream r.stream s then some r else find_snapshot s rs

module _ {S R : Type 0} (store : PgSnapshotStore S R) where
  unfoldable pub upcast_state : ℕ → R → Result S
  upcast_state schema_version raw =
      if schema_version == store.current_schema_version
      then ok (store.as_state raw)
      else elim (store.upcasters schema_version) [
        | none ↦
            err
              (thrown (codes "No snapshot upcaster for schema version " ++ decimal schema_version))
        | some up ↦ ok (up raw)
      ]

  abbrev pub snapshot_of : SnapshotRow R → S → Snapshot S
  snapshot_of r state = record {
    aggregate_name = r.stream.aggregate_name;
    aggregate_id = r.stream.aggregate_id;
    aggregate_version = r.aggregate_version;
    created_at = r.created_at;
    snapshot_schema_version = store.current_schema_version;
    state = state;
  }

  unfoldable pub load_snapshot : StreamId → List (SnapshotRow R) → Result (Option (Snapshot S))
  unfolding upcast_state
  load_snapshot s rows = elim (find_snapshot s rows) [
    | none ↦ ok none
    | some r ↦
        and_then (upcast_state r.snapshot_schema_version r.state)
          (λ state. ok (some (snapshot_of r state)))
  ]

  abbrev pub row_of : Str → Snapshot S → SnapshotRow R
  row_of tenant_id snapshot = record {
    stream = record {
      tenant_id = tenant_id;
      aggregate_name = snapshot.aggregate_name;
      aggregate_id = snapshot.aggregate_id;
    };
    aggregate_version = snapshot.aggregate_version;
    created_at = snapshot.created_at;
    snapshot_schema_version = snapshot.snapshot_schema_version;
    state = store.to_jsonb snapshot.state;
  }

-- The upsert: a row that has a later version stays.
unfoldable pub upsert_snapshot :
    {R : Type 0} → SnapshotRow R → List (SnapshotRow R) → List (SnapshotRow R)
upsert_snapshot new [] = new ∷ []
upsert_snapshot new (r ∷ rs) =
    if same_stream r.stream new.stream
    then (if leb r.aggregate_version new.aggregate_version then new ∷ rs else r ∷ rs)
    else r ∷ upsert_snapshot new rs

unfoldable pub save_snapshot :
    {S R : Type 0}
    → PgSnapshotStore S R
    → Str
    → Snapshot S
    → List (SnapshotRow R)
    → List (SnapshotRow R)
unfolding upsert_snapshot
save_snapshot store tenant_id snapshot rows = upsert_snapshot (row_of store tenant_id snapshot) rows
