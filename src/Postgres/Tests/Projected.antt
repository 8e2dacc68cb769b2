-- ===== src/Postgres/Tests/Projected.antt =====
-- Two deposits that are appended to empty tables and then projected.
use eventfabric.Base.{
  ℕ, suc, ◌≡◌, refl, Str, codes, true, none, some, List, [], ◌∷◌, ◌++◌, arith, length, keep, str_eq,
  if◌then◌else◌, includes, order_by, distinct_on,
}
use eventfabric.Core.Types.{EventEnvelope}
use eventfabric.Core.Projections.Checkpoints.{position}
use eventfabric.Core.Projections.EventLog.{is_past}
use eventfabric.Core.Projections.CatchUp.{CatchUpState, catch_up_options}
use eventfabric.Core.Projections.CatchUp.Between.{is_of}
use eventfabric.Core.Projections.CatchUp.Discovery.{active_events, catch_up}
use eventfabric.Core.Projections.CatchUp.Once.{recorder}
use eventfabric.Postgres.EventStore.Tables.{Db, find_stream}
use eventfabric.Postgres.EventStore.Rows.{AppendResult}
use eventfabric.Postgres.EventStore.Append.{append, write_events, stream_of}
use eventfabric.Postgres.EventStore.Published.{event_log, InOrder}
use eventfabric.Postgres.EventStore.Projected.{append-catch_up}
use eventfabric.Postgres.Tests.{backend, uuids, plain_store, empty_db, two_deposits}

abbrev written_two : AppendResult ℕ × Db ℕ
written_two = write_events backend uuids 0 plain_store (codes "t") two_deposits empty_db (
  none ∷ none ∷ [],
  record { stream = stream_of (codes "t") two_deposits; current_version = 2; head_hash = none }
      ∷ [],
)

abbrev unseen : CatchUpState (List (EventEnvelope ℕ))
unseen = record { checkpoints = []; app = [] }

append-catch_up_example :
    InOrder plain_store written_two.1
    × (s' : CatchUpState (List (EventEnvelope ℕ))) × (catch_up
          (λ t u. true)
          (catch_up_options none none none)
          (event_log plain_store written_two.1)
          (recorder (codes "seen"))
          (suc (length (event_log plain_store written_two.1)))
          unseen
        ≡ some s')
    × ((u : Str)
        → keep (is_of u) s'.app
          ≡ keep (is_of u) unseen.app
            ++ (keep
                  (is_past u (position (codes "seen") u unseen.checkpoints))
                  (event_log plain_store empty_db)
                ++ (if str_eq (codes "t") u then written_two.0.appended else [])))
unfolding append write_events find_stream includes position active_events order_by distinct_on
    str_eq
append-catch_up_example =
    append-catch_up backend uuids 0 plain_store (catch_up_options none none none) (codes "seen")
      (λ t u. true) (record { total = λ t u h. refl; trans = λ t u v h k. refl }) (codes "t")
      two_deposits empty_db written_two.1 written_two.0 unseen (record { ordered = tt; drawn = tt })
      tt refl (λ u. omega arith) (omega arith) refl (omega arith)
