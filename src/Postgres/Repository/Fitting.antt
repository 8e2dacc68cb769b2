-- ===== src/Postgres/Repository/Fitting.antt =====
-- The snapshots that `save` of packages/core/src/repository.ts leaves.
use eventfabric.Base.{
  ℕ, ◌≤◌, ◌≡◌, sym, ap, subst, ◌∙◌, Str, Bool, ◌||◌, Option, none, some, List, [], ◌∷◌, ◌++◌, arith,
  keep, Bool-cases, inl, inr, ◌⊎◌, ok, or_else,
}
use eventfabric.Core.Types.{EventEnvelope}
use eventfabric.Core.Aggregate.{Aggregate}
use eventfabric.Postgres.EventStore.Tables.{StreamId, same_stream→eq}
use eventfabric.Postgres.EventStore.Versions.{IsConsistent, current_version}
use eventfabric.Postgres.Snapshots.{
  SnapshotRow, PgSnapshotStore, find_snapshot, upsert_snapshot, upcast_state, save_snapshot, row_of,
}
use eventfabric.Postgres.Repository.{Repository, World, stream, snapshots_after, is_due}
use eventfabric.Postgres.Repository.History.{
  Counts, Counts-rest, is_up_to, up_to-append, up_to_end, all_of-Counts,
}
use eventfabric.Postgres.Repository.Loading.{events_of, ReplaysTo, SnapshotFits}

find_snapshot-upsert_snapshot :
    {R : Type 0} (s : StreamId) (new r : SnapshotRow R) (rows : List (SnapshotRow R))
    → find_snapshot s (upsert_snapshot new rows) ≡ some r
    → (r ≡ new) ⊎ (find_snapshot s rows ≡ some r)
unfolding find_snapshot upsert_snapshot
find_snapshot-upsert_snapshot s new r [] h = ground arith
find_snapshot-upsert_snapshot s new r (q ∷ rows) h =
    ground (arith, same_stream→eq q.stream new.stream, find_snapshot-upsert_snapshot s new r rows)

module _ {S P R A : Type 0} (repo : Repository S P R A) where
  -- Snapshots are written in the store's own version of the schema, and a stored state is read
  -- back.
  abbrev pub KeepsStates : Option (PgSnapshotStore S R) → Type 0
  KeepsStates none = Unit
  KeepsStates (some snaps) =
      (or_else repo.snapshot_schema_version 1 ≡ snaps.current_schema_version)
      × ((s : S) → snaps.as_state (snaps.to_jsonb s) ≡ s)

module _ {S P R A : Type 0} (repo : Repository S P R A) (tenant_id id : Str) where
  -- A snapshot that fits still fits when events are appended.
  grown_fits :
      (snaps : PgSnapshotStore S R) (w w' : World P R A) (envs : List (EventEnvelope P))
      → IsConsistent w.db
      → IsConsistent w'.db
      → events_of repo tenant_id id w'.db ≡ events_of repo tenant_id id w.db ++ envs
      → current_version (stream repo tenant_id id) w.db
        ≤ current_version (stream repo tenant_id id) w'.db
      → SnapshotFits repo tenant_id id (some snaps) w
      → (r : SnapshotRow R) → find_snapshot (stream repo tenant_id id) w.snapshots ≡ some r
      → (s : S) × (upcast_state snaps r.snapshot_schema_version r.state ≡ ok s)
        × (r.aggregate_version ≤ current_version (stream repo tenant_id id) w'.db)
        × ReplaysTo repo tenant_id id
            (keep (is_up_to r.aggregate_version) (events_of repo tenant_id id w'.db))
            (repo.make id (some s))
  grown_fits snaps w w' envs c c' more grown fits r found =
      let n = current_version (stream repo tenant_id id) w.db in
      let m = current_version (stream repo tenant_id id) w'.db in
      let (s, readable, below, start) = fits r found in
      let counted = all_of-Counts repo.store (stream repo tenant_id id) w.db c in
      let counted' = all_of-Counts repo.store (stream repo tenant_id id) w'.db c' in
      let rest =
        Counts-rest 0 n m (events_of repo tenant_id id w.db) envs counted
          (subst (λ l. Counts 0 l m) more counted') in
      let same : keep (is_up_to r.aggregate_version) (events_of repo tenant_id id w'.db)
          ≡ keep (is_up_to r.aggregate_version) (events_of repo tenant_id id w.db) =
        ap (keep (is_up_to r.aggregate_version)) more
        ∙ up_to-append 0 n m (events_of repo tenant_id id w.db) envs counted rest
            r.aggregate_version below in
      (
        s,
        readable,
        omega (arith, below, grown),
        subst (λ l. ReplaysTo repo tenant_id id l (repo.make id (some s))) (sym same) start,
      )

  -- A snapshot of the saved aggregate fits.
  new_fits :
      (snaps : PgSnapshotStore S R) (agg : Aggregate S P) (w' : World P R A) (r : SnapshotRow R)
      → KeepsStates repo (some snaps)
      → ((s : S) → repo.make id (some s) ≡ s)
      → IsConsistent w'.db
      → agg.version ≡ current_version (stream repo tenant_id id) w'.db
      → ReplaysTo repo tenant_id id (events_of repo tenant_id id w'.db) agg.state
      → r.aggregate_version ≡ agg.version
      → r.snapshot_schema_version ≡ or_else repo.snapshot_schema_version 1
      → r.state ≡ snaps.to_jsonb agg.state
      → (s : S) × (upcast_state snaps r.snapshot_schema_version r.state ≡ ok s)
        × (r.aggregate_version ≤ current_version (stream repo tenant_id id) w'.db)
        × ReplaysTo repo tenant_id id
            (keep (is_up_to r.aggregate_version) (events_of repo tenant_id id w'.db))
            (repo.make id (some s))
  unfolding upcast_state
  new_fits snaps agg w' r keeps makes c' version full v schema state =
      let m = current_version (stream repo tenant_id id) w'.db in
      let whole : keep (is_up_to r.aggregate_version) (events_of repo tenant_id id w'.db)
          ≡ events_of repo tenant_id id w'.db =
        ap (λ n. keep (is_up_to n) (events_of repo tenant_id id w'.db)) (v ∙ version)
        ∙ up_to_end 0 m (events_of repo tenant_id id w'.db)
            (all_of-Counts repo.store (stream repo tenant_id id) w'.db c') in
      (
        agg.state,
        ground (arith, schema, state, keeps.0, keeps.1 agg.state),
        omega (arith, v, version),
        rw (whole, makes agg.state) full,
      )

  -- What `save` leaves: the snapshots from before, or these with one of the saved aggregate.
  pub snapshots_after-SnapshotFits :
      (store : Option (PgSnapshotStore S R)) (force : Bool) (now : ℕ) (agg : Aggregate S P)
      (w w' : World P R A) (envs : List (EventEnvelope P))
      → KeepsStates repo store
      → ((s : S) → repo.make id (some s) ≡ s)
      → IsConsistent w.db
      → IsConsistent w'.db
      → events_of repo tenant_id id w'.db ≡ events_of repo tenant_id id w.db ++ envs
      → current_version (stream repo tenant_id id) w.db
        ≤ current_version (stream repo tenant_id id) w'.db
      → agg.version ≡ current_version (stream repo tenant_id id) w'.db
      → ReplaysTo repo tenant_id id (events_of repo tenant_id id w'.db) agg.state
      → w'.snapshots ≡ snapshots_after repo tenant_id store force now agg w.snapshots
      → SnapshotFits repo tenant_id id store w
      → SnapshotFits repo tenant_id id store w'
  unfolding save_snapshot
  snapshots_after-SnapshotFits none force now agg w w' envs keeps makes c c' more grown version full
        left fits =
      tt
  snapshots_after-SnapshotFits (some snaps) force now agg w w' envs keeps makes c c' more grown
        version full left fits =
      λ r found.
        elim (Bool-cases
          (force || is_due repo tenant_id (or_else repo.snapshot_policy 50) agg.version)) [
            | inr not_due ↦ grown_fits snaps w w' envs c c' more grown fits r (
                ap (find_snapshot (stream repo tenant_id id)) (sym (ground (arith, not_due, left)))
                ∙ found)
            | inl due ↦
                let new : SnapshotRow R = row_of snaps tenant_id (record {
                  aggregate_name = repo.aggregate_name;
                  aggregate_id = agg.id;
                  aggregate_version = agg.version;
                  created_at = now;
                  snapshot_schema_version = or_else repo.snapshot_schema_version 1;
                  state = agg.state;
                }) in
                let put : w'.snapshots ≡ upsert_snapshot new w.snapshots =
                  ground (arith, due, left) in
                elim (find_snapshot-upsert_snapshot (stream repo tenant_id id) new r w.snapshots
                  (ap (find_snapshot (stream repo tenant_id id)) (sym put) ∙ found)) [
                    | inr kept ↦ grown_fits snaps w w' envs c c' more grown fits r kept
                    | inl e ↦
                        new_fits snaps agg w' r keeps makes c' version full
                          (ap (λ q. q.aggregate_version) e) (ap (λ q. q.snapshot_schema_version) e)
                          (ap (λ q. q.state) e)
                  ]
          ]
