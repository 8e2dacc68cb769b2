-- ===== src/Postgres/EventStore/Reads.antt =====
-- `loadStream`, `loadByGlobalPositions` and `dismiss` of packages/postgres/src/pg-event-store.ts.
use eventfabric.Base.{
  ℕ, ◌==◌, leb, Str, Bool, true, false, ◌&&◌, some, List, [], ◌∷◌, map, str_eq, keep, sort_by,
  if◌then◌else◌,
}
use eventfabric.Core.Types.{EventEnvelope, Dismissal}
use eventfabric.Core.Projections.EventLog.{is_wanted}
use eventfabric.Postgres.EventStore.Tables.{StreamId, EventRow, Db, PgEventStore, same_stream}
use eventfabric.Postgres.EventStore.Rows.{map_row}

-- `global_position IN (...)`
abbrev pub position_in : List ℕ → ℕ → Bool
position_in [] n = false
position_in (m ∷ ms) n = if m == n then true else position_in ms n

module _ {P : Type 0} where
  abbrev pub in_stream : StreamId → EventRow P → Bool
  in_stream s r = same_stream r.stream s

  abbrev pub row_version : EventRow P → ℕ
  row_version r = r.aggregate_version

  -- `ORDER BY aggregate_version ASC` on the rows of a stream.
  unfoldable pub stream_rows : StreamId → List (EventRow P) → List (EventRow P)
  stream_rows s rows = sort_by row_version (keep (in_stream s) rows)

  -- `loadStream`; `fromVersion` is 1 where it is left out.
  unfoldable pub load_stream : PgEventStore P → StreamId → ℕ → Bool → Db P → List (EventEnvelope P)
  unfolding map_row
  load_stream store s from include_dismissed db = keep (is_wanted include_dismissed) (
      map (map_row store)
        (sort_by row_version (keep (λ r. in_stream s r && leb from r.aggregate_version) db.events)))

  -- `loadByGlobalPositions`, on a table in the order of its positions.
  unfoldable pub load_by_global_positions : PgEventStore P → List ℕ → Db P → List (EventEnvelope P)
  unfolding map_row
  load_by_global_positions store positions db =
      map (map_row store) (keep (λ r. position_in positions r.global_position) db.events)

  abbrev pub mark_dismissed : Str → Str → Dismissal → EventRow P → EventRow P
  mark_dismissed tenant_id event_id info r =
      if str_eq r.stream.tenant_id tenant_id && str_eq r.event_id event_id
      then record r { dismissed = some info }
      else r

  unfoldable pub dismiss : Str → Str → Dismissal → Db P → Db P
  dismiss tenant_id event_id info db = record db {
    events = map (mark_dismissed tenant_id event_id info) db.events;
  }
