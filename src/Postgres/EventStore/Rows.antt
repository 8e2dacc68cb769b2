-- ===== src/Postgres/EventStore/Rows.antt =====
-- The options, the hash chain of a batch, and the rows that are written and read, in
-- packages/postgres/src/pg-event-store.ts.
use eventfabric.Base.{
  ℕ, suc, ◌+◌, Str, codes, Bool, Option, none, some, List, [], ◌∷◌, ◌++◌, includes, decimal,
  if◌then◌else◌, Result, ok, err, Error, concurrency_error, thrown, and_then,
}
use eventfabric.Core.Types.{Event, EventEnvelope}
use eventfabric.Core.Integrity.HashChain.{ChainableEvent, compute_event_hash}
use eventfabric.Postgres.EventStore.Tables.{StreamId, EventRow, PgEventStore, Backend}

-- `meta`
pub record Meta : Type 0 where
  pub correlation_id : Option Str
  pub causation_id : Option Str

pub record AppendParams (P : Type 0) : Type 0 where
  pub aggregate_name : Str
  pub aggregate_id : Str
  pub expected_aggregate_version : ℕ
  pub events : List (Event P)
  pub meta : Meta
  pub enqueue_outbox : Bool
  pub outbox_topic : Option Str

pub record AppendResult (P : Type 0) : Type 0 where
  pub appended : List (EventEnvelope P)
  pub next_aggregate_version : ℕ

-- The error of an unmet expectation, with the version that is found.
abbrev pub version_conflict : ℕ → StreamId → Str → Error
version_conflict expected s actual = concurrency_error (
    codes "Expected version "
    ++ (decimal expected
        ++ (codes " but stream "
            ++ (s.aggregate_name
                ++ (codes ":" ++ (s.aggregate_id ++ (codes " is at " ++ actual)))))))

abbrev pub already_exists : StreamId → Error
already_exists s = concurrency_error (
    codes "Cannot start stream: "
    ++ (s.aggregate_name ++ (codes ":" ++ (s.aggregate_id ++ codes " already exists"))))

-- The `i`th of a list of hashes, and those behind it.
abbrev pub first_hash : List (Option Str) → Option Str
first_hash [] = none
first_hash (h ∷ hs) = h

abbrev pub later_hashes : List (Option Str) → List (Option Str)
later_hashes [] = []
later_hashes (h ∷ hs) = hs

-- `new Set(...).add(name)`
abbrev pub add_name : Str → List Str → List Str
add_name name names = if includes names name then names else names ++ name ∷ []

module _ {P : Type 0} where
  abbrev pub is_chained : PgEventStore P → Str → Option Str
  is_chained store name = elim store.hash_secret [
    | none ↦ none
    | some secret ↦ if includes store.hash_enabled name then some secret else none
  ]

  unfoldable pub enable_hash_chain_for : Str → PgEventStore P → Result (PgEventStore P)
  enable_hash_chain_for name store = elim store.hash_secret [
    | none ↦ err (
        thrown (
          codes "Cannot enable tamper-evidence for \""
          ++ (name
              ++ (codes "\": PgEventStore was constructed without hashChain.secret. "
                  ++ codes "Pass { hashChain: { secret } } to the PgEventStore constructor."))))
    | some secret ↦ ok (record store { hash_enabled = add_name name store.hash_enabled })
  ]

  -- `this.upcaster ? this.upcaster(payload) : payload`
  abbrev pub upcast : Option (Event P → Event P) → Event P → Event P
  upcast none e = e
  upcast (some f) e = f e

  unfoldable pub map_row : PgEventStore P → EventRow P → EventEnvelope P
  map_row store r = record {
    event_id = r.event_id;
    tenant_id = r.stream.tenant_id;
    aggregate_name = r.stream.aggregate_name;
    aggregate_id = r.stream.aggregate_id;
    aggregate_version = r.aggregate_version;
    global_position = r.global_position;
    occurred_at = r.occurred_at;
    payload = upcast store.upcaster r.payload;
    dismissed = r.dismissed;
    correlation_id = r.correlation_id;
    causation_id = r.causation_id;
  }

module _ {P : Type 0} (backend : Backend P) where
  -- What is hashed for the event of a version.
  abbrev pub chainable : StreamId → Meta → Str → ℕ → Str → ℕ → Event P → ChainableEvent
  chainable s meta id n type version payload = record {
    tenant_id = s.tenant_id;
    aggregate_name = s.aggregate_name;
    aggregate_id = s.aggregate_id;
    aggregate_version = n;
    event_id = id;
    type = type;
    version = version;
    payload = backend.to_json payload;
    correlation_id = meta.correlation_id;
    causation_id = meta.causation_id;
  }

-- One call's surroundings: the backend, and the UUIDs that it draws, in their order.
module _ {P : Type 0} (backend : Backend P) (random_uuid : ℕ → Str) where
  -- `chainBatch` from its `i`th round on: the hashes of the events, and the last of them.
  unfoldable pub chain_batch :
      Str → StreamId → Meta → ℕ → ℕ → Str → List (Event P) → Result (List (Option Str) × Str)
  chain_batch secret s meta base i p [] = ok ([], p)
  chain_batch secret s meta base i p (e ∷ es) =
      and_then
        (compute_event_hash backend.host secret p
          (chainable backend s meta (random_uuid i) (suc (base + i)) e.type e.version e))
        (λ h.
          and_then (chain_batch secret s meta base (suc i) h es)
            (λ (hs, head). ok (some h ∷ hs, head)))

module _ {P : Type 0} (backend : Backend P) (random_uuid : ℕ → Str) (now : ℕ) where
  -- The `i`th row of the batch, at a position.
  abbrev pub new_row : StreamId → Meta → ℕ → ℕ → ℕ → Option Str → Event P → EventRow P
  new_row s meta base i position hash e = record {
    stream = s;
    event_id = random_uuid i;
    aggregate_version = suc (base + i);
    global_position = position;
    occurred_at = now;
    type = e.type;
    version = e.version;
    payload = backend.through_jsonb e;
    dismissed = none;
    correlation_id = meta.correlation_id;
    causation_id = meta.causation_id;
    event_hash = hash;
  }

  -- The rows of the batch from its `i`th event on, at the positions that the sequence gives.
  unfoldable pub new_rows :
      StreamId → Meta → ℕ → ℕ → ℕ → List (Option Str) → List (Event P) → List (EventRow P)
  new_rows s meta base i position hs [] = []
  new_rows s meta base i position hs (e ∷ es) =
      new_row s meta base i position (first_hash hs) e
      ∷ new_rows s meta base (suc i) (suc position) (later_hashes hs) es
