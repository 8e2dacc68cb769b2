-- ===== src/Postgres/Repository/Loading.antt =====
-- `load` of packages/core/src/repository.ts against a replay of the whole stream.
use mathlib.Core.List.{map-append}
use eventfabric.Base.{
  ℕ, suc, ◌≤◌, ◌≡◌, refl, sym, ap, ◌∙◌, Str, true, false, Option, none, some, List, [], ◌∷◌, ◌++◌,
  map, arith, keep, Option-cases, inl, inr, ok, and_then,
}
use eventfabric.Core.Types.{Event, EventEnvelope}
use eventfabric.Core.Aggregate.{Aggregate, HandlerMap, replay}
use eventfabric.Core.Aggregate.Replay.{last_loaded, load_from_history-replay, replay-append}
use eventfabric.Postgres.EventStore.Tables.{Db}
use eventfabric.Postgres.EventStore.Reads.{load_stream}
use eventfabric.Postgres.EventStore.Versions.{IsConsistent, current_version}
use eventfabric.Postgres.Snapshots.{
  Snapshot, SnapshotRow, PgSnapshotStore, find_snapshot, upcast_state, snapshot_of,
}
use eventfabric.Postgres.Repository.{
  Repository, World, stream, fresh, load_behind, load, find_snap, state_of, base_version,
}
use eventfabric.Postgres.Repository.History.{
  is_up_to, is_from, Counts-cut, Counts-last, up_to_below, all_of, all_of-Counts, load_stream-from,
}

abbrev pub payloads : {P : Type 0} → List (EventEnvelope P) → List (Event P)
payloads = map (λ env. env.payload)

pub history_payloads :
    {P : Type 0} (envs : List (EventEnvelope P))
    → map (λ (h : Event P × ℕ). h.0) (map (λ env. (env.payload, env.aggregate_version)) envs)
      ≡ payloads envs
history_payloads [] = refl
history_payloads (env ∷ envs) = ap (λ l. env.payload ∷ l) (history_payloads envs)

replay_nothing : {S P : Type 0} (handlers : HandlerMap S P) (s : S) → replay handlers s [] ≡ some s
unfolding replay
replay_nothing handlers s = refl

module _ {S P R A : Type 0} (repo : Repository S P R A) (tenant_id id : Str) where
  abbrev pub events_of : Db P → List (EventEnvelope P)
  events_of = all_of repo.store (stream repo tenant_id id)

  -- No event of the stream is left out as dismissed, from any version on.
  abbrev pub IsUndismissed : Db P → Type 0
  IsUndismissed db =
      (from : ℕ)
      → load_stream repo.store (stream repo tenant_id id) from false db
        ≡ load_stream repo.store (stream repo tenant_id id) from true db

  -- The events lead from the state of a new aggregate to a state.
  abbrev pub ReplaysTo : List (EventEnvelope P) → S → Type 0
  ReplaysTo envs s = replay repo.handlers (repo.make id none) (payloads envs) ≡ some s

  -- A snapshot of the stream can be read, is at most at the stream's version, and has the state
  -- that the events up to its version lead to.
  abbrev pub SnapshotFits : Option (PgSnapshotStore S R) → World P R A → Type 0
  SnapshotFits none w = Unit
  SnapshotFits (some snaps) w =
      (r : SnapshotRow R)
      → find_snapshot (stream repo tenant_id id) w.snapshots ≡ some r
      → (s : S) × (upcast_state snaps r.snapshot_schema_version r.state ≡ ok s)
        × (r.aggregate_version ≤ current_version (stream repo tenant_id id) w.db)
        × ReplaysTo (keep (is_up_to r.aggregate_version) (events_of w.db)) (repo.make id (some s))

  abbrev pub current : Db P → S → Aggregate S P
  current db s = record {
    id = id;
    version = current_version (stream repo tenant_id id) db;
    state = s;
    pending = [];
  }

  load_behind_lem :
      (snap : Option (Snapshot S)) (db : Db P) (s : S)
      → IsConsistent db
      → IsUndismissed db
      → base_version snap ≤ current_version (stream repo tenant_id id) db
      → ReplaysTo
          (keep (is_up_to (base_version snap)) (events_of db))
          (repo.make id (state_of snap))
      → ReplaysTo (events_of db) s
      → load_behind repo tenant_id id snap db ≡ ok (current db s)
  unfolding load_behind
  load_behind_lem snap db s c u below start full =
      let n = base_version snap in
      let m = current_version (stream repo tenant_id id) db in
      let behind = keep (is_from (suc n)) (events_of db) in
      let (cut, counts) =
        Counts-cut 0 n m (events_of db) (all_of-Counts repo.store (stream repo tenant_id id) db c)
          (omega arith) below in
      let before = keep (is_up_to n) (events_of db) in
      let split : payloads (events_of db) ≡ payloads before ++ payloads behind =
        ap payloads cut ∙ map-append (λ env. env.payload) before behind in
      let goes_on : replay repo.handlers (repo.make id (state_of snap)) (payloads behind) ≡ some s =
        sym (
          replay-append repo.handlers (payloads before) (payloads behind) (repo.make id none) start)
        ∙ (ap (replay repo.handlers (repo.make id none)) (sym split) ∙ full) in
      let read : load_stream repo.store (stream repo tenant_id id) (suc n) false db ≡ behind =
        u (suc n) ∙ load_stream-from repo.store (stream repo tenant_id id) (suc n) db c in
      let end : last_loaded n (map (λ env. (env.payload, env.aggregate_version)) behind) ≡ m =
        Counts-last n m n behind counts refl in
      let done =
        load_from_history-replay repo.handlers
          (map (λ env. (env.payload, env.aggregate_version)) behind)
          (fresh repo tenant_id id n (state_of snap))
          (ap (replay repo.handlers (repo.make id (state_of snap))) (history_payloads behind)
            ∙ goes_on) in
      rw (read, done, end) refl

  load_lem :
      (w : World P R A) {snap : Option (Snapshot S)}
      → find_snap repo tenant_id id w ≡ ok snap
      → load repo tenant_id id w ≡ load_behind repo tenant_id id snap w.db
  unfolding load
  load_lem w {snap} f = ap (λ o. and_then o (λ sn. load_behind repo tenant_id id sn w.db)) f

  no_snapshot :
      (w : World P R A) (s : S)
      → IsConsistent w.db
      → IsUndismissed w.db
      → find_snap repo tenant_id id w ≡ ok none
      → ReplaysTo (events_of w.db) s
      → load repo tenant_id id w ≡ ok (current w.db s)
  no_snapshot w s c u f full =
      let nothing : keep (is_up_to 0) (events_of w.db) ≡ [] =
        up_to_below 0 0 _ (events_of w.db)
          (all_of-Counts repo.store (stream repo tenant_id id) w.db c) (omega arith) in
      load_lem w f
      ∙ load_behind_lem none w.db s c u (omega arith)
          (rw nothing (replay_nothing repo.handlers (repo.make id none))) full

  some_snapshot :
      (snaps : PgSnapshotStore S R) (w : World P R A) (s : S)
      → repo.snapshot_store ≡ some snaps
      → IsConsistent w.db
      → IsUndismissed w.db
      → SnapshotFits (some snaps) w
      → ReplaysTo (events_of w.db) s
      → load repo tenant_id id w ≡ ok (current w.db s)
  unfolding find_snap
  some_snapshot snaps w s there c u fits full =
      elim (Option-cases (find_snapshot (stream repo tenant_id id) w.snapshots)) [
        | inl missing ↦ no_snapshot w s c u (ground (arith, there, missing)) full
        | inr (r, found) ↦
            let (st, readable, below, start) = fits r found in
            load_lem w {snap = some (snapshot_of snaps r st)}
              (ground (arith, there, found, readable))
            ∙ load_behind_lem (some (snapshot_of snaps r st)) w.db s c u below start full
      ]

  -- On consistent tables, where no event of the stream is dismissed and a snapshot that is there
  -- fits: `load` gives the aggregate with the state that the whole stream leads to, at the stream's
  -- version, with nothing pending.
  pub load-replay :
      (w : World P R A) (s : S)
      → IsConsistent w.db
      → IsUndismissed w.db
      → SnapshotFits repo.snapshot_store w
      → ReplaysTo (events_of w.db) s
      → load repo tenant_id id w ≡ ok (current w.db s)
  unfolding find_snap
  load-replay w s c u fits full = elim (Option-cases repo.snapshot_store) [
    | inl without ↦ no_snapshot w s c u (ground (arith, without)) full
    | inr (snaps, there) ↦ some_snapshot snaps w s there c u (rw there at fits) full
  ]
