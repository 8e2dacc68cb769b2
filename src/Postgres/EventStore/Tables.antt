-- ===== src/Postgres/EventStore/Tables.antt =====
-- The tables of packages/postgres/src/pg-event-store.ts: `eventfabric.events` in the order of its
-- positions, and `eventfabric.stream_versions`. The three columns that name a stream are one field.
use eventfabric.Base.{
  ℕ, ◌≡◌, Str, Bool, true, ◌&&◌, Option, none, some, List, [], ◌∷◌, arith, str_eq, str_eq_refl,
  str_eq→eq, if◌then◌else◌,
}
use eventfabric.Core.Types.{Event, Dismissal}
use eventfabric.Core.Integrity.HashChain.{Host}
use eventfabric.Core.Integrity.Json.{Json}
use eventfabric.Core.Projections.Outbox.{Outbox}

pub record StreamId : Type 0 where
  pub tenant_id : Str
  pub aggregate_name : Str
  pub aggregate_id : Str

-- `tenant_id = $1 AND aggregate_name = $2 AND aggregate_id = $3`
unfoldable pub same_stream : StreamId → StreamId → Bool
same_stream a b =
    str_eq a.tenant_id b.tenant_id
    && (str_eq a.aggregate_name b.aggregate_name && str_eq a.aggregate_id b.aggregate_id)

pub same_stream_refl : (a : StreamId) → same_stream a a ≡ true
unfolding same_stream
same_stream_refl a =
    simp (str_eq_refl a.tenant_id, str_eq_refl a.aggregate_name, str_eq_refl a.aggregate_id)

pub same_stream→eq : (a b : StreamId) → same_stream a b ≡ true → a ≡ b
unfolding same_stream
same_stream→eq a b h = ground (
  arith,
  str_eq→eq a.tenant_id b.tenant_id,
  str_eq→eq a.aggregate_name b.aggregate_name,
  str_eq→eq a.aggregate_id b.aggregate_id,
)

-- A row of `stream_versions`.
pub record StreamVersion : Type 0 where
  pub stream : StreamId
  pub current_version : ℕ
  pub head_hash : Option Str

-- The row of a stream, by the primary key.
unfoldable pub find_stream : StreamId → List StreamVersion → Option StreamVersion
find_stream s [] = none
find_stream s (v ∷ vs) = if same_stream v.stream s then some v else find_stream s vs

-- `UPDATE ... SET current_version, head_hash WHERE` the stream is the given one.
unfoldable pub set_stream : StreamId → ℕ → Option Str → List StreamVersion → List StreamVersion
set_stream s n head [] = []
set_stream s n head (v ∷ vs) =
    let rest = set_stream s n head vs in
    if same_stream v.stream s
    then (record v { current_version = n; head_hash = head }) ∷ rest
    else v ∷ rest

-- A row of `events`: the three columns of a dismissal are one optional value.
pub record EventRow (P : Type 0) : Type 0 where
  pub stream : StreamId
  pub event_id : Str
  pub aggregate_version : ℕ
  pub global_position : ℕ
  pub occurred_at : ℕ
  pub type : Str
  pub version : ℕ
  pub payload : Event P
  pub dismissed : Option Dismissal
  pub correlation_id : Option Str
  pub causation_id : Option Str
  pub event_hash : Option Str

-- The tables with their sequences: the next position, and the next id of the outbox.
pub record Db (P : Type 0) : Type 0 where
  pub events : List (EventRow P)
  pub stream_versions : List StreamVersion
  pub outbox : Outbox
  pub next_position : ℕ
  pub next_outbox_id : ℕ

-- What the store is constructed with.
pub record PgEventStore (P : Type 0) : Type 0 where
  pub upcaster : Option (Event P → Event P)
  pub hash_secret : Option Str
  pub hash_enabled : List Str

-- What the code takes from its surroundings: the hash functions, an event as a JSON value, and the
-- event that is read back after `JSON.stringify` and a column of type jsonb.
pub record Backend (P : Type 0) : Type 0 where
  pub host : Host
  pub to_json : Event P → Json
  pub through_jsonb : Event P → Event P
