-- ===== src/Postgres/Session.antt =====
-- packages/postgres/src/session.ts: what a session is registered with, and what it queues. The
-- states of all aggregates are one type.
pub mod Save
pub mod Load
pub mod Factory
pub mod Untracked
pub mod Written
pub mod Consistent
use eventfabric.Base.{
  ℕ, Str, codes, Bool, true, false, not, ◌||◌, Option, none, some, List, [], ◌∷◌, ◌++◌, str_eq,
  Result, ok, err, Error, thrown, Dict, lookup, insert, if◌then◌else◌, Action, pure, throw, modify,
  ◌>>=◌, ◌>>◌,
}
use eventfabric.Core.Types.{Event, EventEnvelope}
use eventfabric.Core.Aggregate.{Aggregate, HandlerMap}
use eventfabric.Postgres.EventStore.Tables.{PgEventStore}
use eventfabric.Postgres.EventStore.Rows.{enable_hash_chain_for}
use eventfabric.Postgres.Snapshots.{PgSnapshotStore}

-- A class with its static properties: the state of a new instance, and the handlers.
pub record AggregateClass (S P : Type 0) : Type 0 where
  pub aggregate_name : Str
  pub make : Str → Option S → S
  pub handlers : HandlerMap S P
  pub tamper_evident : Bool

pub record SessionConfig (S P R A : Type 0) : Type 0 where
  pub event_types : Dict (AggregateClass S P)
  pub classes : Dict (AggregateClass S P)
  pub snapshot_stores : Dict (PgSnapshotStore S R)
  pub snapshot_policies : Dict ℕ
  pub snapshot_schema_versions : Dict ℕ
  pub outbox_topics : Dict Str
  pub inline_projector : Option (List (EventEnvelope P → Action A (Unit {0})))

-- `opts` of `registerAggregate`.
pub record RegisterOptions (S R : Type 0) : Type 0 where
  pub snapshot_store : Option (PgSnapshotStore S R)
  pub snapshot_policy : Option ℕ
  pub snapshot_schema_version : Option ℕ
  pub tamper_evident : Option Bool

-- `-1`, for `appendUnsafe`, is no expected version.
pub data PendingOperation (P : Type 0) : Type 0 where
  start : Str → List (Event P) → Str → PendingOperation P
  append_to : Str → Option ℕ → List (Event P) → Str → PendingOperation P

pub record Session (S P : Type 0) : Type 0 where
  pub operations : List (PendingOperation P)
  pub tracked : Dict (Aggregate S P)

abbrev put_some : {V : Type 0} → Str → Option V → Dict V → Dict V
put_some k none d = d
put_some k (some v) d = insert k v d

abbrev put_all : {V : Type 0} → List Str → V → Dict V → Dict V
put_all [] v d = d
put_all (k ∷ ks) v d = put_all ks v (insert k v d)

abbrev is_opted : Option Bool → Bool → Bool
is_opted none own = own
is_opted (some b) own = b

abbrev pub cannot_infer : {P : Type 0} → Event P → Error
cannot_infer event = thrown (
    codes "Cannot infer aggregate class from event type \""
    ++ (event.type
        ++ codes "\". Please register the event type using session.registerAggregate()."))

-- The message of `startStream` has an example besides.
abbrev cannot_start : {P : Type 0} → Event P → Error
cannot_start event = thrown (
    codes "Cannot infer aggregate class from event type \""
    ++ (event.type
        ++ (codes
              "\". Please register the event type using session.registerAggregate(). For example: "
            ++ codes
                "session.registerAggregate(AccountAggregate, [\"AccountOpened\", \"AccountDeposited\", ...]);")))

abbrev queued : {S P : Type 0} → PendingOperation P → Session S P → Session S P
queued op session = record session { operations = session.operations ++ op ∷ [] }

module _ {S P R A : Type 0} where
  -- `registerAggregate` on the configuration and the event store, which it shares with the
  -- sessions. What stands before the error of `enableHashChainFor` is registered all the same.
  unfoldable pub register_aggregate :
      AggregateClass S P
      → List Str
      → Str
      → RegisterOptions S R
      → Action (SessionConfig S P R A × PgEventStore P) (Unit {0})
  unfolding insert enable_hash_chain_for
  register_aggregate cls event_types topic opts (config, store) =
      let name = cls.aggregate_name in
      let known = record config {
        classes = insert name cls config.classes;
        event_types = put_all event_types cls config.event_types;
        outbox_topics = insert name topic config.outbox_topics;
      } in
      let complete = record known {
        snapshot_stores = put_some name opts.snapshot_store known.snapshot_stores;
        snapshot_policies = put_some name opts.snapshot_policy known.snapshot_policies;
        snapshot_schema_versions =
            put_some name opts.snapshot_schema_version known.snapshot_schema_versions;
      } in
      let chained : Result (Unit {0}) × (SessionConfig S P R A × PgEventStore P) =
        elim (enable_hash_chain_for name store) [
          | err x ↦ (err x, (known, store))
          | ok store' ↦ (ok tt, (complete, store'))
        ] in
      if str_eq name []
      then (
        err (thrown (codes "AggregateClass must have a static aggregateName property")),
        (config, store),
      )
      else if is_opted opts.tamper_evident cls.tamper_evident
      then chained
      else (ok tt, (complete, store))

  -- `inferAggregateFromEvent`
  abbrev pub infer : SessionConfig S P R A → Event P → Option (AggregateClass S P)
  infer config event = lookup event.type config.event_types

  -- The first event that does not belong to the aggregate of a name.
  unfoldable pub foreign_event : SessionConfig S P R A → Str → List (Event P) → Option (Event P)
  foreign_event config name [] = none
  foreign_event config name (e ∷ es) = elim (infer config e) [
    | none ↦ some e
    | some cls ↦ if str_eq cls.aggregate_name name then foreign_event config name es else some e
  ]

  unfoldable pub start_stream :
      SessionConfig S P R A → Str → List (Event P) → Action (Session S P) (Unit {0})
  unfolding foreign_event
  start_stream config aggregate_id [] =
      throw (thrown (codes "At least one event is required to start a stream"))
  start_stream config aggregate_id (e ∷ es) = elim (infer config e) [
    | none ↦ throw (cannot_start e)
    | some cls ↦ elim (foreign_event config cls.aggregate_name (e ∷ es)) [
      | none ↦ modify (queued (start aggregate_id (e ∷ es) cls.aggregate_name))
      | some f ↦ throw (
          thrown (
            codes "Event type \""
            ++ (f.type
                ++ (codes "\" does not belong to aggregate \""
                    ++ (cls.aggregate_name
                        ++ codes
                            "\". All events in startStream must belong to the same aggregate.")))))
    ]
  ]

  -- `append`, with an expected version, and `appendUnsafe`, without.
  unfoldable pub append_events :
      SessionConfig S P R A → Str → Option ℕ → List (Event P) → Action (Session S P) (Unit {0})
  append_events config aggregate_id expected [] =
      throw (thrown (codes "At least one event is required"))
  append_events config aggregate_id expected (e ∷ es) = elim (infer config e) [
    | none ↦ throw (cannot_infer e)
    | some cls ↦ modify (queued (append_to aggregate_id expected (e ∷ es) cls.aggregate_name))
  ]
