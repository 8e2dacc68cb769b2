-- ===== src/Postgres/EventStore/Verify.antt =====
-- `verifyStream` and `verifyAggregate` of packages/postgres/src/pg-event-store.ts.
pub mod Loop
pub mod Intact
pub mod Appended
pub mod Continued
pub mod Evident
use eventfabric.Base.{
  ℕ, zero, suc, ◌-◌, ◌==◌, Str, codes, Bool, true, false, Option, none, some, List, [], ◌∷◌, ◌++◌,
  str_eq, ◌&&◌, decimal, map, keep, if◌then◌else◌, Result, ok, err, thrown, and_then,
}
use eventfabric.Core.Integrity.HashChain.{Host, compute_event_hash, stream_genesis, hashes_equal}
use eventfabric.Postgres.EventStore.Tables.{
  StreamId, StreamVersion, EventRow, Db, PgEventStore, Backend, find_stream,
}
use eventfabric.Postgres.EventStore.Rows.{chainable}
use eventfabric.Postgres.EventStore.Reads.{stream_rows}

-- `ok`, which is a constructor here, is called `intact`.
pub record ChainVerificationResult : Type 0 where
  pub intact : Bool
  pub stream : StreamId
  pub events_checked : ℕ
  pub first_broken_at : Option ℕ
  pub reason : Option Str

-- What the loop over the protected rows comes to: broken with the events that were checked, the
-- version and the reason, or the last hash, the events and the version that would be next.
pub data Walk : Type 0 where
  broken : ℕ → ℕ → Str → Walk
  walked : Str → ℕ → ℕ → Walk

abbrev pub head_of : Option StreamVersion → Option Str
head_of none = none
head_of (some v) = v.head_hash

abbrev pub unprotected_result : StreamId → ℕ → Option Str → ChainVerificationResult
unprotected_result s last none = record {
  intact = true;
  stream = s;
  events_checked = 0;
  first_broken_at = none;
  reason = none;
}
unprotected_result s last (some head) = record {
  intact = false;
  stream = s;
  events_checked = 0;
  first_broken_at = some last;
  reason = some (codes "stream_versions.head_hash is set but the stream has no protected events");
}

abbrev pub walk_result : StreamId → Option Str → Walk → ChainVerificationResult
walk_result s stored (broken checked version reason) = record {
  intact = false;
  stream = s;
  events_checked = checked;
  first_broken_at = some version;
  reason = some reason;
}
walk_result s stored (walked p checked next) =
    if hashes_equal (some p) stored
    then record {
      intact = true;
      stream = s;
      events_checked = checked;
      first_broken_at = none;
      reason = none;
    }
    else record {
      intact = false;
      stream = s;
      events_checked = checked;
      first_broken_at = some (next - 1);
      reason = some (codes "head_hash mismatch (tail event(s) removed or head tampered)");
    }

-- `WHERE tenant_id = $1 AND aggregate_name = $2`
abbrev pub aggregate_streams : Str → Str → List StreamVersion → List StreamId
aggregate_streams tenant_id aggregate_name vs =
    map (λ v. v.stream)
      (keep
        (λ v. str_eq v.stream.tenant_id tenant_id && str_eq v.stream.aggregate_name aggregate_name)
        vs)

module _ {P : Type 0} where
  -- The rows from the first that has a hash.
  unfoldable pub protected_rows : List (EventRow P) → List (EventRow P)
  protected_rows [] = []
  protected_rows (r ∷ rs) = elim r.event_hash [ none ↦ protected_rows rs | some h ↦ r ∷ rs ]

  abbrev pub last_version : ℕ → List (EventRow P) → ℕ
  last_version n [] = n
  last_version n (r ∷ rs) = last_version r.aggregate_version rs

  abbrev pub first_version : List (EventRow P) → ℕ
  first_version [] = 0
  first_version (r ∷ rs) = r.aggregate_version

module _ {P : Type 0} (backend : Backend P) where
  -- The hash of a row as it is stored, behind a hash.
  abbrev pub recompute : Str → StreamId → Str → EventRow P → Result Str
  recompute secret s p r = compute_event_hash backend.host secret p (
      chainable backend s
        (record { correlation_id = r.correlation_id; causation_id = r.causation_id }) r.event_id
        r.aggregate_version r.type r.version r.payload)

  -- One row of the loop: its stored hash, whether its version is the expected one, and the hash
  -- that is computed from it.
  abbrev pub gap_reason : ℕ → ℕ → Str
  gap_reason expected version =
      codes "version gap: expected "
      ++ (decimal expected ++ (codes ", found " ++ (decimal version ++ codes " (event removed)")))

  unfoldable pub walk : Str → StreamId → Str → ℕ → ℕ → List (EventRow P) → Result Walk
  walk secret s p checked expected [] = ok (walked p checked expected)
  walk secret s p checked expected (r ∷ rs) = elim r.event_hash [
    | none ↦ ok (
        broken checked r.aggregate_version
          (codes "NULL event_hash inside the protected chain (event removed or never chained)"))
    | some stored ↦
        let rest = and_then (recompute secret s p r) (λ h.
          if hashes_equal (some h) (some stored)
          then walk secret s h (suc checked) (suc r.aggregate_version) rs
          else ok (
              broken checked r.aggregate_version
                (codes "event_hash mismatch (payload or metadata altered)"))) in
        if r.aggregate_version == expected
        then rest
        else ok (broken checked expected (gap_reason expected r.aggregate_version))
  ]

  unfoldable pub verify_rows :
      Str → StreamId → List (EventRow P) → Option Str → Result ChainVerificationResult
  unfolding protected_rows walk
  verify_rows secret s rows stored = elim (protected_rows rows) [
    | [] ↦ ok (unprotected_result s (last_version 0 rows) stored)
    | r ∷ rs ↦
        and_then (stream_genesis backend.host secret s.tenant_id s.aggregate_name s.aggregate_id)
          (λ genesis.
            and_then (walk secret s genesis 0 r.aggregate_version (r ∷ rs))
              (λ w. ok (walk_result s stored w)))
  ]

  unfoldable pub verify_stream : PgEventStore P → StreamId → Db P → Result ChainVerificationResult
  unfolding verify_rows
  verify_stream store s db = elim store.hash_secret [
    | none ↦
        err
          (thrown (codes "verifyStream requires the store to be constructed with hashChain.secret"))
    | some secret ↦
        verify_rows secret s (stream_rows s db.events) (head_of (find_stream s db.stream_versions))
  ]

  -- One result for each of a list of streams, up to the first error.
  unfoldable pub verify_streams :
      PgEventStore P → Db P → List StreamId → Result (List ChainVerificationResult)
  unfolding verify_stream
  verify_streams store db [] = ok []
  verify_streams store db (s ∷ ss) =
      let rest = verify_streams store db ss in
      and_then (verify_stream store s db) (λ r. and_then rest (λ rs. ok (r ∷ rs)))

  -- `verifyAggregate`; the order of the ids is the database's.
  unfoldable pub verify_aggregate :
      (List StreamId → List StreamId)
      → PgEventStore P
      → Str
      → Str
      → Db P
      → Result (List ChainVerificationResult)
  unfolding verify_streams
  verify_aggregate by_aggregate_id store tenant_id aggregate_name db =
      verify_streams store db
        (by_aggregate_id (aggregate_streams tenant_id aggregate_name db.stream_versions))
