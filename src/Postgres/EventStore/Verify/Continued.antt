-- ===== src/Postgres/EventStore/Verify/Continued.antt =====
-- `append` and `verifyStream` of packages/postgres/src/pg-event-store.ts together.
use eventfabric.Base.{
  ℕ, ◌+◌, ◌<◌, ◌≡◌, refl, sym, ap, subst, ◌∙◌, Str, true, Option, some, List, ◌++◌, arith, length,
  ok, err, Result, keep,
}
use eventfabric.Postgres.EventStore.Tables.{
  StreamId, StreamVersion, Db, PgEventStore, Backend, same_stream_refl, find_stream,
}
use eventfabric.Postgres.EventStore.Rows.{AppendParams, AppendResult, is_chained}
use eventfabric.Postgres.EventStore.Reads.{in_stream}
use eventfabric.Postgres.EventStore.Append.{append, write_events, inserted_rows, stream_of}
use eventfabric.Postgres.EventStore.Append.Gate.{Passes, HashesOf, gate-Passed}
use eventfabric.Postgres.EventStore.Append.Written.{written_rows, write_events-IsConsistent}
use eventfabric.Postgres.EventStore.Append.RoundTrip.{
  Outcome, nothing, refused, written, append-Outcome,
}
use eventfabric.Postgres.EventStore.Versions.{IsConsistent, stream_rows-keep}
use eventfabric.Postgres.EventStore.Verify.{
  verify_stream, verify_rows, head_of, ChainVerificationResult,
}
use eventfabric.Postgres.EventStore.Verify.Intact.{
  Verified, intact_result, Verified-verify_rows, verify_rows-Verified,
}
use eventfabric.Postgres.EventStore.Verify.Appended.{KeepsJson, new_rows-Verified}

module _ {P : Type 0} (backend : Backend P) (store : PgEventStore P) (secret : Str) where
  -- A stream of consistent tables is verified with a count of events.
  abbrev pub VerifiedStream : StreamId → Db P → ℕ → Type 0
  VerifiedStream s db n =
      Verified backend secret s (keep (in_stream s) db.events)
        (head_of (find_stream s db.stream_versions)) n

  verify_stream_lem :
      (s : StreamId) (db : Db P)
      → IsConsistent db
      → store.hash_secret ≡ some secret
      → verify_stream backend store s db
        ≡ verify_rows backend secret s
            (keep (in_stream s) db.events)
            (head_of (find_stream s db.stream_versions))
  unfolding verify_stream
  verify_stream_lem s db c on = ground (arith, on, stream_rows-keep s db c)

  is_chained-secret :
      (name : Str) → is_chained store name ≡ some secret → store.hash_secret ≡ some secret
  is_chained-secret name e = ground arith

module _ {P : Type 0} (backend : Backend P) (random_uuid : ℕ → Str) (now : ℕ)
    (store : PgEventStore P) (secret : Str) (keeps : KeepsJson backend) where
  write_events-Verified :
      (tenant_id : Str) (p : AppendParams P) (db : Db P) (hashes : List (Option Str))
      (vs : List StreamVersion) {head : Option Str} (c : IsConsistent db) (n : ℕ)
      → Passes (stream_of tenant_id p) p db.stream_versions vs head
      → HashesOf backend random_uuid
          (some secret)
          (stream_of tenant_id p)
          p
          (head_of (find_stream (stream_of tenant_id p) db.stream_versions))
          hashes
          head
      → 0 < length p.events
      → VerifiedStream backend store secret (stream_of tenant_id p) db n
      → VerifiedStream backend store secret
          (stream_of tenant_id p)
          (write_events backend random_uuid now store tenant_id p db (hashes, vs)).1
          (n + length p.events)
  unfolding write_events
  write_events-Verified tenant_id p db hashes vs c n pass (prev, h, prior, chain, new_head) pos v =
      let s = stream_of tenant_id p in
      let db' = (write_events backend random_uuid now store tenant_id p db (hashes, vs)).1 in
      let rows = inserted_rows backend random_uuid now store s p hashes db in
      let behind : keep (in_stream s) db'.events ≡ keep (in_stream s) db.events ++ rows =
        written_rows backend random_uuid now store tenant_id p db hashes vs s
        ∙ rw (same_stream_refl s) refl in
      let stored : head_of (find_stream s vs) ≡ some h =
        ground (arith, pass.now s, same_stream_refl s, new_head) in
      let continued =
        new_rows-Verified backend random_uuid now keeps secret s p.meta p.expected_aggregate_version
          db.next_position (keep (in_stream s) db.events)
          (head_of (find_stream s db.stream_versions)) n p.events hashes prev h
          (rw pass.was at (c.numbered s)) v prior chain pos in
      subst (λ l. Verified backend secret s l (head_of (find_stream s vs)) (n + length p.events))
        (sym behind)
        (subst
          (λ o.
            Verified backend secret s (keep (in_stream s) db.events ++ rows) o
              (n + length p.events))
          (sym stored) continued)

  -- The stream is intact after a call that returns, with the events of the call checked as well.
  abbrev pub IsIntactAfter : StreamId → ℕ → Result (AppendResult P) × Db P → Type 0
  IsIntactAfter s n (err x, db) = Unit
  IsIntactAfter s n (ok a, db) = verify_stream backend store s db ≡ ok (intact_result s n)

  Outcome-IsIntactAfter :
      (tenant_id : Str) (p : AppendParams P) (db : Db P) (n : ℕ)
      → IsConsistent db
      → is_chained store p.aggregate_name ≡ some secret
      → VerifiedStream backend store secret (stream_of tenant_id p) db n
      → {r : Result (AppendResult P) × Db P}
      → Outcome backend random_uuid now store tenant_id p db r
      → IsIntactAfter (stream_of tenant_id p) (n + length p.events) r
  Outcome-IsIntactAfter tenant_id p db n c on v (nothing e) =
      verify_stream_lem backend store secret (stream_of tenant_id p) db c
        (is_chained-secret backend store secret p.aggregate_name on)
      ∙ Verified-verify_rows backend secret (stream_of tenant_id p) _ _ _ (
          subst (VerifiedStream backend store secret (stream_of tenant_id p) db)
            (omega (arith, ap length e)) v)
  Outcome-IsIntactAfter tenant_id p db n c on v (refused pos g) = tt
  Outcome-IsIntactAfter tenant_id p db n c on v (written hashes vs pos g) =
      let s = stream_of tenant_id p in
      let (head, pass, by) =
        gate-Passed backend random_uuid store s p db.stream_versions hashes vs g in
      verify_stream_lem backend store secret s _
        (write_events-IsConsistent backend random_uuid now store tenant_id p db hashes vs pass c
          pos)
        (is_chained-secret backend store secret p.aggregate_name on)
      ∙ Verified-verify_rows backend secret s _ _ _
          (write_events-Verified tenant_id p db hashes vs c n pass (rw on at by) pos v)

  -- On consistent tables, for an aggregate that is chained and a stream that `verify_stream` finds
  -- intact: after a call of `append` that returns, `verify_stream` finds the stream intact, and has
  -- checked the events of the call besides those from before. The hypothesis on the backend is that
  -- a stored event keeps its JSON value.
  pub append-verify_stream :
      (tenant_id : Str) (p : AppendParams P) (db : Db P) {v : ChainVerificationResult}
      → IsConsistent db
      → is_chained store p.aggregate_name ≡ some secret
      → verify_stream backend store (stream_of tenant_id p) db ≡ ok v
      → v.intact ≡ true
      → IsIntactAfter
          (stream_of tenant_id p)
          (v.events_checked + length p.events)
          (append backend random_uuid now store tenant_id p db)
  append-verify_stream tenant_id p db {v} c on verified intact =
      let s = stream_of tenant_id p in
      let before =
        verify_rows-Verified backend secret s _ _
          (sym (
              verify_stream_lem backend store secret s db c
                (is_chained-secret backend store secret p.aggregate_name on))
            ∙ verified)
          intact in
      Outcome-IsIntactAfter tenant_id p db v.events_checked c on before
        (append-Outcome backend random_uuid now store tenant_id p db)
