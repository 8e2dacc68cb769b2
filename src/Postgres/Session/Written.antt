-- ===== src/Postgres/Session/Written.antt =====
-- The events that `saveChangesAsync` of packages/postgres/src/session.ts writes.
pub mod Collected
use mathlib.Core.List.{append-nil, map-append}
use eventfabric.Base.{
  ℕ, suc, ◌≡◌, refl, sym, ap, subst, ◌∙◌, Str, Option, none, some, List, [], ◌∷◌, ◌++◌, map, arith,
  Result, ok, err, Dict, Result-cases, Option-cases, List-cases, inl, inr, Action, ◌>>◌,
}
use eventfabric.Core.Types.{Event}
use eventfabric.Core.Aggregate.{Aggregate, pull_pending_events}
use eventfabric.Postgres.EventStore.Tables.{Backend, PgEventStore, StreamId, Db, EventRow}
use eventfabric.Postgres.EventStore.Rows.{Meta, AppendParams, AppendResult, new_rows}
use eventfabric.Postgres.EventStore.Append.{append, write_events, stream_of}
use eventfabric.Postgres.EventStore.Append.RoundTrip.{
  Outcome, nothing, refused, written, append-Outcome,
}
use eventfabric.Postgres.Session.{
  SessionConfig, PendingOperation, start, append_to, Session, infer, cannot_infer,
}
use eventfabric.Postgres.Session.Save.{
  Commit, operation_params, run_operation, run_operations, run_projector, snapshot_one,
  snapshot_all, commit, collect,
}

pub append_three : {A : Type 0} (xs ys zs : List A) → (xs ++ ys) ++ zs ≡ xs ++ (ys ++ zs)
append_three [] ys zs = refl
append_three (x ∷ xs) ys zs = ap (λ l. x ∷ l) (append_three xs ys zs)

-- The events of the table, each with its stream.
abbrev pub stored_events : {P : Type 0} → Db P → List (StreamId × Event P)
stored_events db = map (λ r. (r.stream, r.payload)) db.events

module _ {P : Type 0} (backend : Backend P) where
  -- Events of a stream as the column stores them.
  abbrev as_stored : StreamId → List (Event P) → List (StreamId × Event P)
  as_stored s es = map (λ e. (s, backend.through_jsonb e)) es

  module _ (tenant_id : Str) where
    abbrev stream_at : Str → Str → StreamId
    stream_at name id = record { tenant_id = tenant_id; aggregate_name = name; aggregate_id = id }

    -- What an operation has to write.
    pub operation_writes : PendingOperation P → List (StreamId × Event P)
    operation_writes (start id es name) = as_stored (stream_at name id) es
    operation_writes (append_to id n es name) = as_stored (stream_at name id) es

    -- What the queued operations have to write, in their order.
    unfoldable pub queued_writes : List (PendingOperation P) → List (StreamId × Event P)
    unfolding operation_writes
    queued_writes [] = []
    queued_writes (op ∷ ops) = operation_writes op ++ queued_writes ops

    -- What the pending events of the tracked aggregates are to become, in the stream of the class
    -- that the first of them belongs to.
    unfoldable pub tracked_writes :
        {S R A : Type 0} → SessionConfig S P R A → Dict (Aggregate S P) → List (StreamId × Event P)
    tracked_writes config [] = []
    tracked_writes config ((id, agg) ∷ rest) =
        elim agg.pending [
          | [] ↦ []
          | e ∷ es ↦ elim (infer config e) [
            | none ↦ []
            | some cls ↦ as_stored (stream_at cls.aggregate_name id) (e ∷ es)
          ]
        ]
        ++ tracked_writes config rest

module _ {P : Type 0} (backend : Backend P) (random_uuid : ℕ → Str) (now : ℕ)
    (store : PgEventStore P) where
  new_rows-stored :
      (s : StreamId) (meta : Meta) (base i position : ℕ) (hs : List (Option Str))
      (es : List (Event P))
      → map
          (λ (r : EventRow P). (r.stream, r.payload))
          (new_rows backend random_uuid now s meta base i position hs es)
        ≡ as_stored backend s es
  unfolding new_rows
  new_rows-stored s meta base i position hs [] = refl
  new_rows-stored s meta base i position hs (e ∷ es) =
      ap (λ l. (s, backend.through_jsonb e) ∷ l)
        (new_rows-stored s meta base (suc i) (suc position) _ es)

  Stored : StreamId → AppendParams P → Db P → Result (AppendResult P) × Db P → Type 0
  Stored s p db (err x, db') = Unit
  Stored s p db (ok a, db') = stored_events db' ≡ stored_events db ++ as_stored backend s p.events

  Outcome-Stored :
      (tenant_id : Str) (p : AppendParams P) (db : Db P) {r : Result (AppendResult P) × Db P}
      → Outcome backend random_uuid now store tenant_id p db r
      → Stored (stream_of tenant_id p) p db r
  unfolding Stored write_events
  Outcome-Stored tenant_id p db (nothing e) = rw e (sym (append-nil (stored_events db)))
  Outcome-Stored tenant_id p db (refused pos g) = tt
  Outcome-Stored tenant_id p db (written hashes vs pos g) =
      map-append _ db.events _
      ∙ ap (λ l. stored_events db ++ l)
          (new_rows-stored (stream_of tenant_id p) p.meta p.expected_aggregate_version 0
            db.next_position hashes p.events)

  append-Stored :
      (tenant_id : Str) (p : AppendParams P) (db : Db P)
      → Stored (stream_of tenant_id p) p db (append backend random_uuid now store tenant_id p db)
  append-Stored tenant_id p db =
      Outcome-Stored tenant_id p db (append-Outcome backend random_uuid now store tenant_id p db)

module _ {S P R A : Type 0} where
  -- A step of the transaction that succeeds has added events to the table.
  abbrev pub Adds :
      List (StreamId × Event P) → Commit S P R A → Result (Unit {0}) × Commit S P R A → Type 0
  Adds l c (err x, c') = Unit
  Adds l c (ok u, c') = stored_events c'.world.db ≡ stored_events c.world.db ++ l

  then-Adds :
      (m k : Action (Commit S P R A) (Unit {0})) (c : Commit S P R A)
      (l l' : List (StreamId × Event P))
      → Adds l c (m c)
      → ((d : Commit S P R A) → Adds l' d (k d))
      → Adds (l ++ l') c ((m >> k) c)
  then-Adds m k c l l' hm hk = after (m c).0 (m c).1 hm
    where
      joined :
          (d : Commit S P R A) (r : Result (Unit {0})) (d' : Commit S P R A)
          → stored_events d.world.db ≡ stored_events c.world.db ++ l
          → Adds l' d (r, d')
          → Adds (l ++ l') c (r, d')
      joined d (err x) d' e h = tt
      joined d (ok u) d' e h =
          h ∙ ap (λ x. x ++ l') e ∙ append_three (stored_events c.world.db) l l'

      after :
          (r : Result (Unit {0})) (d : Commit S P R A)
          → Adds l c (r, d)
          → Adds (l ++ l') c (elim r [ ok u ↦ k d | err x ↦ (err x, d) ])
      after (err x) d h = tt
      after (ok u) d h = joined d (k d).0 (k d).1 h (hk d)

  Adds-events :
      (l : List (StreamId × Event P)) (c : Commit S P R A) (r : Result (Unit {0}) × Commit S P R A)
      → stored_events r.1.world.db ≡ stored_events c.world.db ++ l
      → Adds l c r
  Adds-events l c (err x, c') e = tt
  Adds-events l c (ok u, c') e = e

  Adds-nothing :
      (c : Commit S P R A) (r : Result (Unit {0})) (c' : Commit S P R A)
      → c'.world.db ≡ c.world.db
      → Adds [] c (r, c')
  Adds-nothing c (err x) c' e = tt
  Adds-nothing c (ok u) c' e = ap stored_events e ∙ sym (append-nil (stored_events c.world.db))

module _ {S P R A : Type 0} (backend : Backend P) (random_uuid : ℕ → ℕ → Str) (now : ℕ)
    (config : SessionConfig S P R A) (store : PgEventStore P) (tenant_id : Str) (meta : Meta) where
  pub run_projector-db :
      (c : Commit S P R A)
      → (run_projector backend random_uuid now config store tenant_id meta c).1.world.db
        ≡ c.world.db
  unfolding run_projector
  run_projector-db c = ground arith

  pub snapshot_one-db :
      (ops : List (PendingOperation P)) (id : Str) (version : ℕ) (c : Commit S P R A)
      → (snapshot_one backend random_uuid now config store tenant_id meta ops id version
          c).1.world.db
        ≡ c.world.db
  unfolding snapshot_one
  snapshot_one-db ops id version c = ground arith

  operation_writes_lem :
      (db : Db P) (op : PendingOperation P)
      → let p = operation_params backend random_uuid now config store tenant_id meta db op in
        as_stored backend (stream_of tenant_id p) p.events ≡ operation_writes backend tenant_id op
  unfolding operation_writes
  operation_writes_lem db (start id es name) = refl
  operation_writes_lem db (append_to id n es name) = refl

  run_operation-Adds :
      (i : ℕ) (op : PendingOperation P) (c : Commit S P R A)
      → Adds
          (operation_writes backend tenant_id op)
          c
          (run_operation backend random_uuid now config store tenant_id meta i op c)
  unfolding run_operation Stored
  run_operation-Adds i op c =
      let p = operation_params backend random_uuid now config store tenant_id meta c.world.db op in
      let call = append backend (random_uuid i) now store tenant_id p c.world.db in
      let stored = append-Stored backend (random_uuid i) now store tenant_id p c.world.db in
      elim (Result-cases call.0) [
        | inl (a, e) ↦
            let db_of : (run_operation backend random_uuid now config store tenant_id meta i op
                  c).1.world.db
                ≡ call.1 =
              ground (arith, e) in
            let more =
              subst
                (λ r.
                  Stored backend (random_uuid i) now store (stream_of tenant_id p) p c.world.db
                    (r, call.1))
                e stored in
            Adds-events (operation_writes backend tenant_id op) c _ (
              ap stored_events db_of
              ∙ more
              ∙ ap (λ l. stored_events c.world.db ++ l) (operation_writes_lem c.world.db op))
        | inr (x, e) ↦
            let step : run_operation backend random_uuid now config store tenant_id meta i op c
                ≡ (err x, c) =
              ground (arith, e) in
            subst (Adds (operation_writes backend tenant_id op) c) (sym step) tt
      ]

  run_operations-Adds :
      (i : ℕ) (ops : List (PendingOperation P)) (c : Commit S P R A)
      → Adds
          (queued_writes backend tenant_id ops)
          c
          (run_operations backend random_uuid now config store tenant_id meta i ops c)
  unfolding run_operations queued_writes
  run_operations-Adds i [] c = sym (append-nil (stored_events c.world.db))
  run_operations-Adds i (op ∷ ops) c =
      then-Adds (run_operation backend random_uuid now config store tenant_id meta i op)
        (run_operations backend random_uuid now config store tenant_id meta (suc i) ops) c
        (operation_writes backend tenant_id op) (queued_writes backend tenant_id ops)
        (run_operation-Adds i op c) (run_operations-Adds (suc i) ops)

  snapshot_all-Adds :
      (ops : List (PendingOperation P)) (versions : Dict ℕ) (c : Commit S P R A)
      → Adds [] c (snapshot_all backend random_uuid now config store tenant_id meta ops versions c)
  unfolding snapshot_all
  snapshot_all-Adds ops [] c = sym (append-nil (stored_events c.world.db))
  snapshot_all-Adds ops ((id, version) ∷ versions) c =
      then-Adds (snapshot_one backend random_uuid now config store tenant_id meta ops id version)
        (snapshot_all backend random_uuid now config store tenant_id meta ops versions) c [] []
        (Adds-nothing c _ _ (snapshot_one-db ops id version c)) (snapshot_all-Adds ops versions)

  pub commit-Adds :
      (ops : List (PendingOperation P)) (c : Commit S P R A)
      → Adds
          (queued_writes backend tenant_id ops)
          c
          (commit backend random_uuid now config store tenant_id meta ops c)
  unfolding commit
  commit-Adds ops c =
      let l = queued_writes backend tenant_id ops in
      subst (λ x. Adds x c (commit backend random_uuid now config store tenant_id meta ops c))
        (append-nil (l ++ []) ∙ append-nil l)
        (then-Adds
          (run_operations backend random_uuid now config store tenant_id meta 0 ops
            >> run_projector backend random_uuid now config store tenant_id meta)
          (λ d. snapshot_all backend random_uuid now config store tenant_id meta ops d.versions d) c
          (l ++ []) []
          (then-Adds (run_operations backend random_uuid now config store tenant_id meta 0 ops)
            (run_projector backend random_uuid now config store tenant_id meta) c l []
            (run_operations-Adds 0 ops c) (λ d. Adds-nothing d _ _ (run_projector-db d)))
          (λ d. snapshot_all-Adds ops d.versions d))
