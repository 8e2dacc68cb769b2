-- ===== src/Postgres/Repository/Saving.antt =====
-- `save` of packages/core/src/repository.ts, and a `load` behind it.
use mathlib.Core.List.{map-append}
use eventfabric.Base.{
  ℕ, leb, ◌≡◌, refl, sym, ap, subst, ◌∙◌, Str, true, false, Option, none, some, List, [], ◌∷◌, ◌++◌,
  map, arith, keep, List-cases, inl, inr, Result, ok, err,
}
use eventfabric.Core.Types.{Event, EventEnvelope}
use eventfabric.Core.Aggregate.{Aggregate, replay, pull_pending_events}
use eventfabric.Core.Aggregate.Replay.{replay-append}
use eventfabric.Postgres.EventStore.Tables.{Db, Backend}
use eventfabric.Postgres.EventStore.Rows.{AppendResult, upcast}
use eventfabric.Postgres.EventStore.Versions.{IsConsistent, current_version}
use eventfabric.Postgres.EventStore.Append.{append}
use eventfabric.Postgres.EventStore.Append.Written.{Appends}
use eventfabric.Postgres.EventStore.Append.RoundTrip.{AppendsOr, append-AppendsOr}
use eventfabric.Postgres.Repository.{
  Repository, World, SaveParams, stream, append_params, projected, snapshots_after, after_append,
  save, load,
}
use eventfabric.Postgres.Repository.History.{from_start}
use eventfabric.Postgres.Repository.Loading.{
  payloads, events_of, IsUndismissed, ReplaysTo, SnapshotFits, load-replay,
}
use eventfabric.Postgres.Repository.Fitting.{KeepsStates, snapshots_after-SnapshotFits}

module _ {S P R A : Type 0} (repo : Repository S P R A) (tenant_id : Str) where
  -- An aggregate that was loaded from the tables and has raised its pending events.
  pub record Stands (agg : Aggregate S P) (w : World P R A) : Type 0 where
    pub consistent : IsConsistent w.db
    pub undismissed : IsUndismissed repo tenant_id agg.id w.db
    pub fits : SnapshotFits repo tenant_id agg.id repo.snapshot_store w
    pub version : agg.version ≡ current_version (stream repo tenant_id agg.id) w.db
    pub base : S
    pub stored : ReplaysTo repo tenant_id agg.id (events_of repo tenant_id agg.id w.db) base
    pub raised : replay repo.handlers base agg.pending ≡ some agg.state

  -- A call of `save` by its result: an error leaves the database as it was; else the aggregate
  -- keeps its state and has nothing pending, and loading it gives the aggregate.
  abbrev pub Saves :
      Aggregate S P
      → World P R A
      → Result (Option (List (EventEnvelope P))) × (Aggregate S P × World P R A)
      → Type 0
  Saves agg w (err x, (agg', w')) = w' ≡ w
  Saves agg w (ok r, (agg', w')) =
      Stands agg' w'
      × (agg'.state ≡ agg.state)
      × (agg'.pending ≡ [])
      × (load repo tenant_id agg.id w' ≡ ok agg')

  -- What stands with nothing pending is what is loaded.
  Stands-load :
      (agg : Aggregate S P) (w : World P R A)
      → Stands agg w
      → agg.pending ≡ []
      → load repo tenant_id agg.id w ≡ ok agg
  unfolding replay
  Stands-load agg w v none_pending =
      let same : v.base ≡ agg.state = ground (arith, v.raised, none_pending) in
      load-replay repo tenant_id agg.id w v.base v.consistent v.undismissed v.fits v.stored
      ∙ ground (arith, same, v.version, none_pending)

module _ {S P R A : Type 0} (backend : Backend P) (random_uuid : ℕ → Str) (now : ℕ)
    (repo : Repository S P R A) (tenant_id : Str) (keeps : KeepsStates repo repo.snapshot_store)
    (makes : (id : Str) (s : S) → repo.make id (some s) ≡ s)
    (reads : (e : Event P) → upcast repo.store.upcaster (backend.through_jsonb e) ≡ e) where
  read_back :
      (es : List (Event P))
      → map (λ e. upcast repo.store.upcaster (backend.through_jsonb e)) es ≡ es
  read_back [] = refl
  read_back (e ∷ es) = rw (reads e, read_back es) refl

  -- What the saved aggregate is, behind an append.
  saved-Stands :
      (params : SaveParams) (agg : Aggregate S P) (w : World P R A) (a : AppendResult P) (db : Db P)
      (models : A)
      → Stands repo tenant_id agg w
      → Appends repo.store
          (stream repo tenant_id agg.id)
          (append_params repo tenant_id params agg)
          w.db
          a
          db
      → payloads a.appended
        ≡ map (λ e. upcast repo.store.upcaster (backend.through_jsonb e)) agg.pending
      → let agg' = record agg { version = a.next_aggregate_version; pending = [] } in
        Stands repo tenant_id agg' (record {
          db = db;
          snapshots =
              snapshots_after repo tenant_id repo.snapshot_store params.force_snapshot now agg'
                w.snapshots;
          models = models;
        })
  unfolding replay
  saved-Stands params agg w a db models v done payload =
      let s = stream repo tenant_id agg.id in
      let agg' : Aggregate S P = record agg { version = a.next_aggregate_version; pending = [] } in
      let w' : World P R A = record {
        db = db;
        snapshots =
            snapshots_after repo tenant_id repo.snapshot_store params.force_snapshot now agg'
              w.snapshots;
        models = models;
      } in
      let more : events_of repo tenant_id agg.id db
          ≡ events_of repo tenant_id agg.id w.db ++ a.appended =
        done.loads 0 true
        ∙ ap (λ l. events_of repo tenant_id agg.id w.db ++ l) (from_start a.appended) in
      let version : a.next_aggregate_version ≡ current_version s db =
        omega (arith, done.next, done.version, v.version) in
      let full : ReplaysTo repo tenant_id agg.id (events_of repo tenant_id agg.id db) agg.state =
        ap (λ l. replay repo.handlers (repo.make agg.id none) (payloads l)) more
        ∙ (ap (replay repo.handlers (repo.make agg.id none))
              (map-append (λ env. env.payload) (events_of repo tenant_id agg.id w.db) a.appended)
            ∙ (replay-append repo.handlers (payloads (events_of repo tenant_id agg.id w.db))
                  (payloads a.appended) (repo.make agg.id none) v.stored
                ∙ (ap (replay repo.handlers v.base) (payload ∙ read_back agg.pending)
                    ∙ v.raised))) in
      record {
        consistent = done.consistent;
        undismissed = λ from.
            done.loads from false
            ∙ (ap (λ l. l ++ keep (λ env. leb from env.aggregate_version) a.appended)
                  (v.undismissed from)
                ∙ sym (done.loads from true));
        fits =
            snapshots_after-SnapshotFits repo tenant_id agg.id repo.snapshot_store
              params.force_snapshot now agg' w w' a.appended keeps (makes agg.id) v.consistent
              done.consistent more (omega (arith, done.version)) version full refl v.fits;
        version = version;
        base = agg.state;
        stored = full;
        raised = refl;
      }

  after_append-Saves :
      (params : SaveParams) (agg : Aggregate S P) (w : World P R A) (a : AppendResult P) (db : Db P)
      → Stands repo tenant_id agg w
      → Appends repo.store
          (stream repo tenant_id agg.id)
          (append_params repo tenant_id params agg)
          w.db
          a
          db
      → payloads a.appended
        ≡ map (λ e. upcast repo.store.upcaster (backend.through_jsonb e)) agg.pending
      → Saves repo tenant_id agg w (
          after_append backend random_uuid now repo tenant_id params
            (pull_pending_events agg).1
            w
            a
            db)
  unfolding after_append
  after_append-Saves params agg w a db v done payload =
      projected_cases (projected repo tenant_id a.appended w.models).0
        (projected repo tenant_id a.appended w.models).1
    where
      projected_cases :
          (r : Result (Unit {0})) (models : A)
          → Saves repo tenant_id agg w (elim r [
            | err x ↦ (err x, (record agg { version = a.next_aggregate_version; pending = [] }, w))
            | ok u ↦ (
              ok (some a.appended),
              (
                record agg { version = a.next_aggregate_version; pending = [] },
                record {
                  db = db;
                  snapshots =
                      snapshots_after repo tenant_id repo.snapshot_store params.force_snapshot now
                        (record agg { version = a.next_aggregate_version; pending = [] })
                        w.snapshots;
                  models = models;
                },
              ),
            )
          ])
      projected_cases (err x) models = refl
      projected_cases (ok u) models =
          let stands = saved-Stands params agg w a db models v done payload in
          (stands, refl, refl, Stands-load repo tenant_id _ _ stands refl)

  -- What `save` does with the result of its append.
  abbrev after_call :
      SaveParams
      → Aggregate S P
      → World P R A
      → Result (AppendResult P) × Db P
      → Result (Option (List (EventEnvelope P))) × (Aggregate S P × World P R A)
  after_call params agg w (err x, db) = (err x, ((pull_pending_events agg).1, w))
  after_call params agg w (ok a, db) =
      after_append backend random_uuid now repo tenant_id params (pull_pending_events agg).1 w a db

  after_call-Saves :
      (params : SaveParams) (agg : Aggregate S P) (w : World P R A) (r : Result (AppendResult P))
      (db : Db P)
      → Stands repo tenant_id agg w
      → AppendsOr backend random_uuid now repo.store
          (stream repo tenant_id agg.id)
          (append_params repo tenant_id params agg)
          w.db
          (r, db)
      → Saves repo tenant_id agg w (after_call params agg w (r, db))
  after_call-Saves params agg w (err x) db v h = refl
  after_call-Saves params agg w (ok a) db v h = after_append-Saves params agg w a db v h.0 h.1

  -- Where events and snapshots are read back as they were written: for an aggregate that was loaded
  -- from consistent tables, with no event of its stream dismissed and a fitting snapshot or none,
  -- and has raised its pending events, `save` either throws and leaves the database as it was, or
  -- leaves the aggregate with its state and nothing pending, in step with the tables, and `load`
  -- gives that aggregate, from a snapshot or without.
  pub save-load :
      (params : SaveParams) (agg : Aggregate S P) (w : World P R A)
      → Stands repo tenant_id agg w
      → Saves repo tenant_id agg w (save backend random_uuid now repo tenant_id params agg w)
  unfolding save
  save-load params agg w v =
      let call =
        append backend random_uuid now repo.store tenant_id
          (append_params repo tenant_id params agg) w.db in
      let appends =
        append-AppendsOr backend random_uuid now repo.store tenant_id
          (append_params repo tenant_id params agg) w.db v.consistent in
      elim (List-cases agg.pending) [
        | inl none_pending ↦
            let same : record agg { pending = [] } ≡ agg = ground (arith, none_pending) in
            let nothing : save backend random_uuid now repo tenant_id params agg w
                ≡ (ok none, (record agg { pending = [] }, w)) =
              ground (arith, none_pending) in
            subst (Saves repo tenant_id agg w) (sym nothing) (
              subst (λ x. Stands repo tenant_id x w) (sym same) v,
              refl,
              refl,
              Stands-load repo tenant_id agg w v none_pending ∙ ap ok (sym same),
            )
        | inr (e, es, some_pending) ↦
            let step : save backend random_uuid now repo tenant_id params agg w
                ≡ after_call params agg w (call.0, call.1) =
              ground (arith, some_pending) in
            subst (Saves repo tenant_id agg w) (sym step)
              (after_call-Saves params agg w call.0 call.1 v appends)
      ]
