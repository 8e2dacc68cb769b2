-- ===== src/Postgres/Repository/Behind.antt =====
-- `load` and `save` of packages/core/src/repository.ts on a stream whose last event is dismissed.
use eventfabric.Base.{
  ℕ, suc, ◌≤◌, ◌<◌, ◌≡◌, refl, ap, subst, Str, Bool, true, false, Option, none, List, [], ◌∷◌, map,
  arith, length, keep, leb, All, ok, err, inl, inr, Option-cases, Result-cases, List-cases,
  concurrency_error,
}
use native.Mathlib.Decide.{ℕ_discrete}
use eventfabric.Core.Types.{Event, EventEnvelope}
use eventfabric.Core.Aggregate.{Aggregate, HandlerMap, load_from_history, apply}
use eventfabric.Core.Aggregate.Replay.{last_loaded}
use eventfabric.Core.Projections.EventLog.{is_wanted, is_dismissed}
use eventfabric.Postgres.EventStore.Tables.{EventRow, Db, PgEventStore, Backend}
use eventfabric.Postgres.EventStore.Rows.{map_row, is_chained}
use eventfabric.Postgres.EventStore.Reads.{in_stream, load_stream}
use eventfabric.Postgres.EventStore.Append.Expected.{append-current_version}
use eventfabric.Postgres.EventStore.Versions.{
  IsConsistent, Numbered, current_version, load_stream-keep,
}
use eventfabric.Postgres.Snapshots.{Snapshot}
use eventfabric.Postgres.Repository.{
  Repository, World, SaveParams, stream, load, load_behind, find_snap, base_version, history_of,
  append_params, save, fresh, state_of,
}

module _ {S P : Type 0} (handlers : HandlerMap S P) where
  load_from_history-version :
      (history : List (Event P × ℕ)) (agg : Aggregate S P) (u : Unit {0})
      → (load_from_history handlers history agg).0 ≡ ok u
      → (load_from_history handlers history agg).1.version ≡ last_loaded agg.version history
  unfolding load_from_history apply
  load_from_history-version [] agg u h = refl
  load_from_history-version ((e, n) ∷ history) agg u h = elim (Option-cases (handlers e.type)) [
    | inl unhandled ↦ absurd (ground (arith, h, unhandled))
    | inr (f, handled) ↦
        let next : Aggregate S P = record agg { state = f agg.state e; version = n } in
        ground (arith, h, handled, load_from_history-version history next u)
  ]

module _ {P : Type 0} (store : PgEventStore P) where
  Numbered-le : (n m : ℕ) (rs : List (EventRow P)) → Numbered n rs m → n ≤ m
  Numbered-le n m [] h = omega (arith, h)
  Numbered-le n m (r ∷ rs) h = omega (arith, Numbered-le (suc n) m rs h.1)

  -- Where the row of the last version is dismissed, what is read is of versions before it.
  read_before :
      (n m : ℕ) (p : EventRow P → Bool) (rs : List (EventRow P))
      → Numbered n rs m
      → All (λ r. r.aggregate_version ≡ m → is_dismissed r.dismissed ≡ true) rs
      → All
          (λ e. e.aggregate_version < m)
          (keep (is_wanted false) (map (map_row store) (keep p rs)))
  unfolding map_row
  read_before n m p [] h d = tt
  read_before n m p (r ∷ rs) h d =
      let rest = read_before (suc n) m p rs h.1 d.1 in
      let upto : r.aggregate_version ≤ m = omega (arith, h.0, Numbered-le (suc n) m rs h.1) in
      elim (ℕ_discrete r.aggregate_version m) [
        | yes last ↦ ground (arith, rest, d.0 last)
        | no inner ↦
            let before : r.aggregate_version < m = omega (arith, upto, inner) in
            ground (arith, rest, before)
      ]

  last_loaded-less :
      (n v : ℕ) (es : List (EventEnvelope P))
      → v < n
      → All (λ e. e.aggregate_version < n) es
      → last_loaded v (map (λ env. (env.payload, env.aggregate_version)) es) < n
  last_loaded-less n v [] h k = h
  last_loaded-less n v (e ∷ es) h k = last_loaded-less n e.aggregate_version es k.0 k.1

module _ {S P R A : Type 0} (backend : Backend P) (random_uuid : ℕ → Str) (now : ℕ)
    (repo : Repository S P R A) (tenant_id id : Str) where
  load_behind-version :
      (snap : Option (Snapshot S)) (db : Db P) (agg : Aggregate S P)
      → load_behind repo tenant_id id snap db ≡ ok agg
      → agg.version
        ≡ last_loaded (base_version snap) (
            history_of repo tenant_id (
              load_stream repo.store (stream repo tenant_id id) (suc (base_version snap)) false db))
  unfolding load_behind
  load_behind-version snap db agg h =
      let history =
        history_of repo tenant_id
          (load_stream repo.store (stream repo tenant_id id) (suc (base_version snap)) false db) in
      let start = fresh repo tenant_id id (base_version snap) (state_of snap) in
      let t = load_from_history repo.handlers history start in
      elim (Result-cases t.0) [
        | inl (u, e) ↦
            let same : agg ≡ t.1 = ground (arith, h, e) in
            rw same (load_from_history-version repo.handlers history start u e)
        | inr (x, e) ↦ absurd (ground (arith, h, e))
      ]

  load-behind_current :
      (w : World P R A) (snap : Option (Snapshot S)) (agg : Aggregate S P)
      → IsConsistent w.db
      → All
          (λ r.
            r.aggregate_version ≡ current_version (stream repo tenant_id id) w.db
            → is_dismissed r.dismissed ≡ true)
          (keep (in_stream (stream repo tenant_id id)) w.db.events)
      → find_snap repo tenant_id id w ≡ ok snap
      → base_version snap < current_version (stream repo tenant_id id) w.db
      → load repo tenant_id id w ≡ ok agg
      → agg.version < current_version (stream repo tenant_id id) w.db
  unfolding load
  load-behind_current w snap agg c d found below h =
      let s = stream repo tenant_id id in
      let read = load_stream repo.store s (suc (base_version snap)) false w.db in
      let behind : load_behind repo tenant_id id snap w.db ≡ ok agg = ground (arith, h, found) in
      let low : All (λ e. e.aggregate_version < current_version s w.db) read =
        rw (load_stream-keep repo.store s (suc (base_version snap)) false w.db c) (
          read_before repo.store 0 (current_version s w.db)
            (λ r. leb (suc (base_version snap)) r.aggregate_version)
            (keep (in_stream s) w.db.events) (c.numbered s) d) in
      omega (
        arith,
        load_behind-version snap w.db agg behind,
        last_loaded-less repo.store (current_version s w.db) (base_version snap) read below low,
      )

  -- Where the last event of a stream is dismissed, every aggregate that is loaded from it, perhaps
  -- from a snapshot of an earlier version, is at an earlier version than the stream, so that saving
  -- events that are raised on it throws a concurrency error and changes nothing. The tables are
  -- consistent, and the aggregate is not chained.
  pub load-save_refused :
      (w : World P R A) (snap : Option (Snapshot S)) (agg changed : Aggregate S P)
      (params : SaveParams)
      → IsConsistent w.db
      → is_chained repo.store repo.aggregate_name ≡ none
      → All
          (λ r.
            r.aggregate_version ≡ current_version (stream repo tenant_id id) w.db
            → is_dismissed r.dismissed ≡ true)
          (keep (in_stream (stream repo tenant_id id)) w.db.events)
      → find_snap repo tenant_id id w ≡ ok snap
      → base_version snap < current_version (stream repo tenant_id id) w.db
      → load repo tenant_id id w ≡ ok agg
      → changed.id ≡ id
      → changed.version ≡ agg.version
      → 0 < length changed.pending
      → let (r, (agg', w')) = save backend random_uuid now repo tenant_id params changed w in
        ((m : Str) × (r ≡ err (concurrency_error m))) × (w' ≡ w)
  unfolding save
  load-save_refused w snap agg changed params c plain d found below h same v some_pending =
      let p = append_params repo tenant_id params changed in
      let behind = load-behind_current w snap agg c d found below h in
      elim (List-cases changed.pending) [
        | inl none_pending ↦ absurd (omega (arith, some_pending, ap length none_pending))
        | inr (e, es, given) ↦
            elim (append-current_version backend random_uuid now repo.store tenant_id p w.db c plain
              some_pending) [
                | inl (met, a, appended) ↦
                    let met' : current_version (stream repo tenant_id id) w.db ≡ changed.version =
                      subst (λ i. current_version (stream repo tenant_id i) w.db ≡ changed.version)
                        same met in
                    absurd (omega (arith, met', v, behind))
                | inr (unmet, m, refused) ↦
                    ((m, ground (arith, given, refused)), ground (arith, given, refused))
              ]
      ]
