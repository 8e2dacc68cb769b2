-- ===== src/Postgres/Session/Consistent.antt =====
-- `saveChangesAsync` of packages/postgres/src/session.ts keeps the tables consistent.
use mathlib.Core.List.{append-nil}
use eventfabric.Base.{
  ◌++◌, ℕ, suc, ◌≡◌, refl, sym, subst, Str, List, [], ◌∷◌, arith, Result, ok, err, Dict,
  Result-cases, List-cases, inl, inr, Action, ◌>>◌,
}
use eventfabric.Core.Types.{Event}
use eventfabric.Postgres.EventStore.Tables.{Backend, PgEventStore, StreamId}
use eventfabric.Postgres.EventStore.Rows.{Meta}
use eventfabric.Postgres.EventStore.Versions.{IsConsistent}
use eventfabric.Postgres.EventStore.Append.{append, stream_of}
use eventfabric.Postgres.EventStore.Append.RoundTrip.{AppendsOr, append-AppendsOr}
use eventfabric.Postgres.Repository.{World}
use eventfabric.Postgres.Session.{SessionConfig, PendingOperation, Session}
use eventfabric.Postgres.Session.Written.{
  stored_events, queued_writes, tracked_writes, Adds, commit-Adds, run_projector-db,
  snapshot_one-db,
}
use eventfabric.Postgres.Session.Written.Collected.{Collects, collect-Collects}
use eventfabric.Postgres.Session.Save.{
  Commit, operation_params, run_operation, run_operations, run_projector, snapshot_one,
  snapshot_all, commit, collect, save_operations, save_changes, begin, finish,
}

-- What holds behind each of two steps holds behind both.
then_keeps :
    {C : Type 0} (Q : C → Type 0) (m k : Action C (Unit {0}))
    → ((c : C) → Q c → Q (m c).1)
    → ((c : C) → Q c → Q (k c).1)
    → (c : C) → Q c
    → Q ((m >> k) c).1
then_keeps {C} Q m k hm hk c q = elim (Result-cases (m c).0) [
  | inl (u, e) ↦
      let step : ◌>>◌ m k c ≡ k (m c).1 = ground (arith, e) in
      subst (λ (r : Result (Unit {0}) × C). Q r.1) (sym step) (hk (m c).1 (hm c q))
  | inr (x, e) ↦
      let step : ◌>>◌ m k c ≡ (err x, (m c).1) = ground (arith, e) in
      subst (λ (r : Result (Unit {0}) × C). Q r.1) (sym step) (hm c q)
]

module _ {S P R A : Type 0} (backend : Backend P) (random_uuid : ℕ → ℕ → Str) (now : ℕ)
    (config : SessionConfig S P R A) (store : PgEventStore P) (tenant_id : Str) (meta : Meta) where
  abbrev KeepsTables : Commit S P R A → Type 0
  KeepsTables c = IsConsistent c.world.db

  run_operation-KeepsTables :
      (i : ℕ) (op : PendingOperation P) (c : Commit S P R A)
      → KeepsTables c
      → KeepsTables (run_operation backend random_uuid now config store tenant_id meta i op c).1
  unfolding run_operation
  run_operation-KeepsTables i op c h =
      let p = operation_params backend random_uuid now config store tenant_id meta c.world.db op in
      let call = append backend (random_uuid i) now store tenant_id p c.world.db in
      let appends = append-AppendsOr backend (random_uuid i) now store tenant_id p c.world.db h in
      elim (Result-cases call.0) [
        | inl (a, e) ↦
            let written : (run_operation backend random_uuid now config store tenant_id meta i op
                  c).1.world.db
                ≡ call.1 =
              ground (arith, e) in
            let done =
              subst
                (λ r.
                  AppendsOr backend (random_uuid i) now store (stream_of tenant_id p) p c.world.db
                    (r, call.1))
                e appends in
            subst IsConsistent (sym written) done.0.consistent
        | inr (x, e) ↦
            let left : (run_operation backend random_uuid now config store tenant_id meta i op
                  c).1.world.db
                ≡ c.world.db =
              ground (arith, e) in
            subst IsConsistent (sym left) h
      ]

  run_operations-KeepsTables :
      (i : ℕ) (ops : List (PendingOperation P)) (c : Commit S P R A)
      → KeepsTables c
      → KeepsTables (run_operations backend random_uuid now config store tenant_id meta i ops c).1
  unfolding run_operations
  run_operations-KeepsTables i [] c h = h
  run_operations-KeepsTables i (op ∷ ops) c h =
      then_keeps KeepsTables
        (run_operation backend random_uuid now config store tenant_id meta i op)
        (run_operations backend random_uuid now config store tenant_id meta (suc i) ops)
        (run_operation-KeepsTables i op) (run_operations-KeepsTables (suc i) ops) c h

  snapshot_all-KeepsTables :
      (ops : List (PendingOperation P)) (versions : Dict ℕ) (c : Commit S P R A)
      → KeepsTables c
      → KeepsTables
          (snapshot_all backend random_uuid now config store tenant_id meta ops versions c).1
  unfolding snapshot_all
  snapshot_all-KeepsTables ops [] c h = h
  snapshot_all-KeepsTables ops ((id, version) ∷ versions) c h =
      then_keeps KeepsTables
        (snapshot_one backend random_uuid now config store tenant_id meta ops id version)
        (snapshot_all backend random_uuid now config store tenant_id meta ops versions)
        (λ d q.
          subst IsConsistent
            (sym (
              snapshot_one-db backend random_uuid now config store tenant_id meta ops id version d))
            q)
        (snapshot_all-KeepsTables ops versions) c h

  commit-KeepsTables :
      (ops : List (PendingOperation P)) (c : Commit S P R A)
      → KeepsTables c
      → KeepsTables (commit backend random_uuid now config store tenant_id meta ops c).1
  unfolding commit
  commit-KeepsTables ops c h =
      then_keeps KeepsTables
        (run_operations backend random_uuid now config store tenant_id meta 0 ops
          >> run_projector backend random_uuid now config store tenant_id meta)
        (λ d. snapshot_all backend random_uuid now config store tenant_id meta ops d.versions d)
        (then_keeps KeepsTables
          (run_operations backend random_uuid now config store tenant_id meta 0 ops)
          (run_projector backend random_uuid now config store tenant_id meta)
          (run_operations-KeepsTables 0 ops)
          (λ d q.
            subst IsConsistent
              (sym (run_projector-db backend random_uuid now config store tenant_id meta d)) q))
        (λ d q. snapshot_all-KeepsTables ops d.versions d q) c h

  -- The events in the table behind a commit: those that were there, and the given ones.
  abbrev Stores : List (StreamId × Event P) → World P R A → World P R A → Type 0
  Stores l w w' = stored_events w'.db ≡ stored_events w.db ++ l

  -- A call of `saveChangesAsync` by its result, where `l` is what the session has to write.
  abbrev pub SavesChanges :
      List (StreamId × Event P)
      → World P R A
      → Result (Unit {0}) × (Session S P × World P R A)
      → Type 0
  SavesChanges l w (err x, (session, w')) = w' ≡ w
  SavesChanges l w (ok u, (session, w')) =
      IsConsistent w'.db × (session.operations ≡ []) × Stores l w w'

  finish-SavesChanges :
      (l : List (StreamId × Event P)) (session : Session S P) (w : World P R A)
      (r : Result (Unit {0})) (c : Commit S P R A)
      → KeepsTables c
      → Adds l (begin backend random_uuid now config store tenant_id meta session w) (r, c)
      → SavesChanges l w
          (finish backend random_uuid now config store tenant_id meta session w (r, c))
  finish-SavesChanges l session w (ok u) c h more = (h, refl, more)
  finish-SavesChanges l session w (err x) c h more = refl

  save_operations-SavesChanges :
      (session : Session S P) (w : World P R A)
      → IsConsistent w.db
      → SavesChanges
          (queued_writes backend tenant_id session.operations)
          w
          (save_operations backend random_uuid now config store tenant_id meta session w)
  unfolding queued_writes
  save_operations-SavesChanges session w h = elim (List-cases session.operations) [
    | inl none_queued ↦
        let step : save_operations backend random_uuid now config store tenant_id meta session w
            ≡ (ok tt, (session, w)) =
          ground (arith, none_queued) in
        subst (SavesChanges (queued_writes backend tenant_id session.operations) w) (sym step)
          (h, none_queued, rw none_queued (sym (append-nil (stored_events w.db))))
    | inr (op, ops, queued) ↦
        let start = begin backend random_uuid now config store tenant_id meta session w in
        let body = commit backend random_uuid now config store tenant_id meta (op ∷ ops) start in
        let step : save_operations backend random_uuid now config store tenant_id meta session w
            ≡ finish backend random_uuid now config store tenant_id meta session w
                (body.0, body.1) =
          ground (arith, queued) in
        subst (SavesChanges (queued_writes backend tenant_id session.operations) w) (sym step) (
          finish-SavesChanges (queued_writes backend tenant_id session.operations) session w body.0
            body.1 (commit-KeepsTables (op ∷ ops) start h)
            (subst (λ l. Adds (queued_writes backend tenant_id l) start (body.0, body.1))
              (sym queued)
              (commit-Adds backend random_uuid now config store tenant_id meta (op ∷ ops) start)))
  ]

  -- On consistent tables, a call of `saveChangesAsync` that throws leaves the database as it was.
  -- One that returns leaves consistent tables and no operation queued, and has added to the events
  -- of the table, each with its stream and as the column stores it, exactly the events of the
  -- queued operations in their order, and behind them the pending events of each tracked aggregate.
  pub save_changes-SavesChanges :
      (session : Session S P) (w : World P R A)
      → IsConsistent w.db
      → SavesChanges
          (queued_writes backend tenant_id session.operations
            ++ tracked_writes backend tenant_id config session.tracked)
          w
          (save_changes backend random_uuid now config store tenant_id meta session w)
  unfolding save_changes
  save_changes-SavesChanges session w h =
      let all =
        queued_writes backend tenant_id session.operations
        ++ tracked_writes backend tenant_id config session.tracked in
      let collected = collect config [] session.tracked session in
      elim (Result-cases collected.0) [
        | inl (u, e) ↦
            let step : save_changes backend random_uuid now config store tenant_id meta session w
                ≡ save_operations backend random_uuid now config store tenant_id meta collected.1
                    w =
              ground (arith, e) in
            let to_write : queued_writes backend tenant_id collected.1.operations ≡ all =
              subst
                (λ r. Collects backend tenant_id config session session.tracked (r, collected.1)) e
                (collect-Collects backend tenant_id config [] session.tracked session) in
            subst (SavesChanges all w) (sym step) (
              subst
                (λ l. SavesChanges l w (
                  save_operations backend random_uuid now config store tenant_id meta collected.1
                    w))
                to_write (save_operations-SavesChanges collected.1 w h))
        | inr (x, e) ↦
            let step : save_changes backend random_uuid now config store tenant_id meta session w
                ≡ (err x, (collected.1, w)) =
              ground (arith, e) in
            subst (SavesChanges all w) (sym step) refl
      ]
