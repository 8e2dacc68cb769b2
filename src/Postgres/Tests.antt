-- ===== src/Postgres/Tests.antt =====
-- The event store at concrete tables.
mod DeadLetters
mod Account
mod Dismissed
mod Projected
mod Anchoring
mod Sessions
mod Tampering
use eventfabric.Base.{
  ℕ, suc, ◌+◌, ◌≡◌, ◌≢◌, refl, Str, codes, decimal, true, none, some, [], ◌∷◌, ◌++◌, map, arith,
  ◌⊎◌, includes, str_eq, sort_by, ok, err, concurrency_error,
}
use eventfabric.Core.Types.{Event}
use eventfabric.Core.Integrity.Json.{num, str, obj, no_fields, field, null, undefined, serialize}
use eventfabric.Core.Integrity.Json.Order.{
  objects, keep_first, swap_first, then_next, dropped, none_left, same, serialize-SameJson,
}
use eventfabric.Core.Integrity.HashChain.{Host, stream_genesis, compute_event_hash}
use eventfabric.Postgres.EventStore.Tables.{Db, PgEventStore, Backend, find_stream}
use eventfabric.Postgres.EventStore.Rows.{AppendParams, AppendResult, chain_batch}
use eventfabric.Postgres.EventStore.Reads.{stream_rows}
use eventfabric.Postgres.EventStore.Append.{append, stream_of}
use eventfabric.Postgres.EventStore.Append.RoundTrip.{AppendsOr, append-AppendsOr}
use eventfabric.Postgres.EventStore.Append.Expected.{append-current_version}
use eventfabric.Postgres.EventStore.Versions.{IsConsistent, current_version}
use eventfabric.Postgres.EventStore.Verify.{verify_stream}
use eventfabric.Postgres.EventStore.Verify.Intact.{intact_result}
use eventfabric.Postgres.EventStore.Verify.Continued.{append-verify_stream}

abbrev host : Host
host = record { quote = λ s. 34 ∷ (s ++ 34 ∷ []); utf8 = λ s. s; hmac = λ k m. map suc m ++ 0 ∷ [] }

abbrev backend : Backend ℕ
backend = record {
  host = host;
  to_json = λ e.
      obj (
        field (codes "type") (str e.type)
          (field (codes "amount") (num (decimal e.body)) no_fields));
  through_jsonb = λ e. e;
}

abbrev uuids : ℕ → Str
uuids i = (97 + i) ∷ []

abbrev plain_store : PgEventStore ℕ
plain_store = record { upcaster = none; hash_secret = none; hash_enabled = [] }

abbrev chained_store : PgEventStore ℕ
chained_store = record {
  upcaster = none;
  hash_secret = some (codes "k");
  hash_enabled = codes "acct" ∷ [];
}

abbrev empty_db : Db ℕ
empty_db = record {
  events = [];
  stream_versions = [];
  outbox = record { rows = []; dead_letters = [] };
  next_position = 1;
  next_outbox_id = 1;
}

abbrev deposited : ℕ → Event ℕ
deposited n = record { type = codes "D"; version = 1; body = n }

abbrev pub two_deposits : AppendParams ℕ
two_deposits = record {
  aggregate_name = codes "acct";
  aggregate_id = codes "1";
  expected_aggregate_version = 0;
  events = deposited 5 ∷ deposited 7 ∷ [];
  meta = record { correlation_id = none; causation_id = none };
  enqueue_outbox = true;
  outbox_topic = none;
}

abbrev one_more : AppendParams ℕ
one_more = record two_deposits { expected_aggregate_version = 2; events = deposited 9 ∷ [] }

empty_db-IsConsistent : IsConsistent empty_db
unfolding find_stream
empty_db-IsConsistent = record { numbered = λ s. refl; started = λ s v h. cc }

abbrev db_of_two : Db ℕ
unfolding append
db_of_two = (append backend uuids 0 plain_store (codes "t") two_deposits empty_db).1

db_of_two-IsConsistent : IsConsistent db_of_two
unfolding append db_of_two find_stream
db_of_two-IsConsistent =
    let appends =
      append-AppendsOr backend uuids 0 plain_store (codes "t") two_deposits empty_db
        empty_db-IsConsistent in
    appends.0.consistent

append-AppendsOr_example :
    AppendsOr backend uuids 0 plain_store
      (stream_of (codes "t") one_more)
      one_more
      db_of_two
      (append backend uuids 1 plain_store (codes "t") one_more db_of_two)
append-AppendsOr_example =
    append-AppendsOr backend uuids 1 plain_store (codes "t") one_more db_of_two
      db_of_two-IsConsistent

append-current_version_example :
    ((current_version (stream_of (codes "t") one_more) db_of_two ≡ 2)
      × (a : AppendResult ℕ) × ((append backend uuids 1 plain_store
            (codes "t")
            one_more
            db_of_two).0
          ≡ ok a))
    ⊎ ((current_version (stream_of (codes "t") one_more) db_of_two ≢ 2)
        × (m : Str) × (append backend uuids 1 plain_store (codes "t") one_more db_of_two
            ≡ (err (concurrency_error m), db_of_two)))
append-current_version_example =
    append-current_version backend uuids 1 plain_store (codes "t") one_more db_of_two
      db_of_two-IsConsistent refl (omega arith)

empty_is_intact :
    verify_stream backend chained_store (stream_of (codes "t") two_deposits) empty_db
    ≡ ok (intact_result (stream_of (codes "t") two_deposits) 0)
unfolding verify_stream stream_rows find_stream sort_by
empty_is_intact = refl

append-verify_stream_example :
    verify_stream backend chained_store
      (stream_of (codes "t") two_deposits)
      (append backend uuids 0 chained_store (codes "t") two_deposits empty_db).1
    ≡ ok (intact_result (stream_of (codes "t") two_deposits) 2)
unfolding append includes str_eq stream_genesis serialize chain_batch compute_event_hash find_stream
append-verify_stream_example =
    append-verify_stream backend uuids 0 chained_store (codes "k") (λ e. same _) (codes "t")
      two_deposits empty_db {v = intact_result (stream_of (codes "t") two_deposits) 0}
      empty_db-IsConsistent refl empty_is_intact refl

serialize-SameJson_example :
    serialize host.quote (
      obj (
        field
          (codes "b")
          null
          (field (codes "u") undefined (field (codes "a") (num (codes "1")) no_fields))))
    ≡ serialize host.quote
        (obj (field (codes "a") (num (codes "1")) (field (codes "b") null no_fields)))
serialize-SameJson_example = serialize-SameJson host.quote _ _ (
    objects (
      then_next
        (keep_first (codes "b") (same null)
          (dropped (codes "u") (keep_first (codes "a") (same _) none_left)))
        (swap_first (codes "b") (codes "a") null (num (codes "1")) no_fields (λ e. ground arith))))
