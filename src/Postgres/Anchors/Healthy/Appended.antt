-- ===== src/Postgres/Anchors/Healthy/Appended.antt =====
-- `append` of packages/postgres/src/pg-event-store.ts on healthy tables.
use eventfabric.Base.{
  ℕ, suc, ◌+◌, ◌<◌, ◌≡◌, ◌⊎◌, inl, inr, refl, ap, ◌∙◌, Str, Bool, Option, none, some, List, [], ◌∷◌,
  ◌++◌, All, All-map, All-append, arith, length, ok, Result, Bool-cases, List-cases, Option-cases,
}
use eventfabric.Core.Types.{Dismissal}
use eventfabric.Postgres.EventStore.Tables.{
  Backend, StreamId, StreamVersion, EventRow, Db, PgEventStore, same_stream, same_stream→eq,
  find_stream, set_stream,
}
use eventfabric.Postgres.EventStore.Rows.{AppendParams, AppendResult, is_chained, chain_batch}
use eventfabric.Postgres.EventStore.Reads.{dismiss}
use eventfabric.Postgres.EventStore.Verify.{head_of}
use eventfabric.Postgres.EventStore.Versions.{IsConsistent, current_version}
use eventfabric.Postgres.EventStore.Append.{append, write_events, inserted_rows, stream_of, gate}
use eventfabric.Postgres.EventStore.Append.Gate.{HashesOf, gate-Passed}
use eventfabric.Postgres.EventStore.Append.Written.{write_events-IsConsistent}
use eventfabric.Postgres.EventStore.Append.RoundTrip.{Outcome, append-Outcome}
use eventfabric.Postgres.Anchors.Tables.{AnchorDb, live_hash, member_stream}
use eventfabric.Postgres.Anchors.Live.{
  live_hash-append, live_hash-above, live_hash-new_rows, live_hash-dismissed, dismiss-IsConsistent,
}
use eventfabric.Postgres.Anchors.Healthy.{HeadIsLive, IsHealthy}

-- An UPDATE of rows that have a property.
set_stream-All {κ} :
    (Q : StreamVersion → Type κ) (s : StreamId) (n : ℕ) (head : Option Str)
    (vs : List StreamVersion)
    → Q (record { stream = s; current_version = n; head_hash = head })
    → All Q vs
    → All Q (set_stream s n head vs)
unfolding set_stream
set_stream-All Q s n head [] q h = tt
set_stream-All Q s n head (v ∷ vs) q h = elim (Bool-cases (same_stream v.stream s)) [
  | inl t ↦ rw t (rw (same_stream→eq v.stream s t) q, set_stream-All Q s n head vs q h.1)
  | inr f ↦ rw f (h.0, set_stream-All Q s n head vs q h.1)
]

module _ {P : Type 0} where
  live_hash-extend :
      (s : StreamId) (n : ℕ) (xs ys : List (EventRow P)) {h : Option Str}
      → live_hash s n xs ≡ some h
      → live_hash s n (xs ++ ys) ≡ some h
  live_hash-extend s n xs ys e = live_hash-append s n xs ys ∙ rw e refl

  -- What is asked of a call of `append`: the aggregate is chained, or its stream never was.
  abbrev pub KeepsChain : PgEventStore P → Str → AppendParams P → Db P → Type 0
  KeepsChain store tenant p db =
      ((secret : Str) × (is_chained store p.aggregate_name ≡ some secret))
      ⊎ (head_of (find_stream (stream_of tenant p) db.stream_versions) ≡ none)

module _ {P : Type 0} (backend : Backend P) (random_uuid : ℕ → Str) (now : ℕ)
    (store : PgEventStore P) (tenant : Str) (p : AppendParams P) (db : Db P)
    (consistent : IsConsistent db) (hashes : List (Option Str)) where
  abbrev pub rows : List (EventRow P)
  rows = inserted_rows backend random_uuid now store (stream_of tenant p) p hashes db

  -- The hash of the last row is the new head.
  chained_head :
      (secret prev h : Str)
      → current_version (stream_of tenant p) db ≡ p.expected_aggregate_version
      → 0 < length p.events
      → chain_batch backend random_uuid secret
          (stream_of tenant p)
          p.meta
          p.expected_aggregate_version
          0
          prev
          p.events
        ≡ ok (hashes, h)
      → live_hash
          (stream_of tenant p)
          (p.expected_aggregate_version + length p.events)
          (db.events ++ rows)
        ≡ some (some h)
  chained_head secret prev h was some_given c = elim (List-cases p.events) [
    | inl none_given ↦ absurd (omega (arith, ap length none_given))
    | inr (e, es, given) ↦
        let s = stream_of tenant p in
        let version = p.expected_aggregate_version + length p.events in
        let missing : live_hash s version db.events ≡ none =
          live_hash-above s version 0 (current_version s db) db.events (consistent.numbered s)
            (omega (arith, was)) in
        let index : suc (p.expected_aggregate_version + 0) + length es ≡ version =
          omega (arith, ap length given) in
        let last : live_hash s version rows ≡ some (some h) =
          rw (← index, given)
            (live_hash-new_rows backend random_uuid now secret s p.meta p.expected_aggregate_version
              0 db.next_position prev e es hashes h (rw given at c)) in
        live_hash-append s version db.events rows ∙ rw missing last
  ]

  new_head :
      (head : Option Str) (h : Str)
      → KeepsChain store tenant p db
      → current_version (stream_of tenant p) db ≡ p.expected_aggregate_version
      → 0 < length p.events
      → HashesOf backend random_uuid
          (is_chained store p.aggregate_name)
          (stream_of tenant p)
          p
          (head_of (find_stream (stream_of tenant p) db.stream_versions))
          hashes
          head
      → head ≡ some h
      → live_hash
          (stream_of tenant p)
          (p.expected_aggregate_version + length p.events)
          (db.events ++ rows)
        ≡ some (some h)
  new_head head h keeps was some_given hs e =
      elim (Option-cases (is_chained store p.aggregate_name)) [
        | inr (secret, chained) ↦
            let (prev, k, _, c, is_head) = rw chained at hs in
            let same : k ≡ h = ground (arith, e, is_head) in
            rw (← same) (chained_head secret prev k was some_given c)
        | inl unchained ↦
            let (_, stays) = rw unchained at hs in
            elim keeps [
              | inl (secret, chained) ↦ absurd (ground (arith, unchained, chained))
              | inr never ↦ absurd (ground (arith, never, stays, e))
            ]
      ]

module _ {P : Type 0} (backend : Backend P) (random_uuid : ℕ → Str) (now : ℕ)
    (store : PgEventStore P) (key : Str) (text_before : Str → Str → Bool) (tenant : Str)
    (p : AppendParams P) (st : AnchorDb P) where
  written-IsHealthy :
      (hashes : List (Option Str)) (vs : List StreamVersion)
      → KeepsChain store tenant p st.db
      → 0 < length p.events
      → gate backend random_uuid store (stream_of tenant p) p st.db.stream_versions
        ≡ ok (hashes, vs)
      → IsHealthy backend key text_before st
      → IsHealthy backend key text_before (record st {
        db = (write_events backend random_uuid now store tenant p st.db (hashes, vs)).1;
      })
  unfolding write_events
  written-IsHealthy hashes vs keeps some_given g h =
      let s = stream_of tenant p in
      let (head, pass, hs) =
        gate-Passed backend random_uuid store s p st.db.stream_versions hashes vs g in
      let new : HeadIsLive
          (st.db.events ++ rows backend random_uuid now store tenant p st.db h.consistent hashes)
          (record {
            stream = s;
            current_version = p.expected_aggregate_version + length p.events;
            head_hash = head;
          }) =
        λ k e.
          new_head backend random_uuid now store tenant p st.db h.consistent hashes head k keeps
            pass.was some_given hs e in
      let old =
        All-map (HeadIsLive st.db.events)
          (HeadIsLive
            (st.db.events ++ rows backend random_uuid now store tenant p st.db h.consistent hashes))
          (λ v live k e. live_hash-extend v.stream v.current_version st.db.events _ (live k e))
          st.db.stream_versions h.heads in
      record {
        consistent =
            write_events-IsConsistent backend random_uuid now store tenant p st.db hashes vs pass
              h.consistent some_given;
        heads = elim pass.rows [
          | inl updated ↦ rw updated (set_stream-All _ s _ head st.db.stream_versions new old)
          | inr inserted ↦ rw inserted (All-append _ st.db.stream_versions _ old (new, tt))
        ];
        sealed =
            All-map _ _
              (λ r live.
                live_hash-extend (member_stream r.tenant_id r.member) r.member.version st.db.events
                  _ live)
              st.members h.sealed;
        numbered = h.numbered;
        linked = h.linked;
      }

  Outcome-IsHealthy :
      (r : Result (AppendResult P) × Db P)
      → Outcome backend random_uuid now store tenant p st.db r
      → KeepsChain store tenant p st.db
      → IsHealthy backend key text_before st
      → IsHealthy backend key text_before (record st { db = r.1 })
  Outcome-IsHealthy r (Outcome.nothing e) keeps h = h
  Outcome-IsHealthy r (Outcome.refused some_given g) keeps h = h
  Outcome-IsHealthy r (Outcome.written hashes vs some_given g) keeps h =
      written-IsHealthy hashes vs keeps some_given g h

  pub append-IsHealthy :
      KeepsChain store tenant p st.db
      → IsHealthy backend key text_before st
      → IsHealthy backend key text_before
          (record st { db = (append backend random_uuid now store tenant p st.db).1 })
  append-IsHealthy keeps h =
      Outcome-IsHealthy _ (append-Outcome backend random_uuid now store tenant p st.db) keeps h

module _ {P : Type 0} (backend : Backend P) (key : Str) (text_before : Str → Str → Bool) where
  pub dismiss-IsHealthy :
      (tenant id : Str) (info : Dismissal) (st : AnchorDb P)
      → IsHealthy backend key text_before st
      → IsHealthy backend key text_before (record st { db = dismiss tenant id info st.db })
  unfolding dismiss
  dismiss-IsHealthy tenant id info st h = record {
    consistent = dismiss-IsConsistent tenant id info st.db h.consistent;
    heads =
        All-map _ _
          (λ v live k e.
            live_hash-dismissed v.stream v.current_version tenant id info st.db.events ∙ live k e)
          st.db.stream_versions h.heads;
    sealed =
        All-map _ _
          (λ r live.
            live_hash-dismissed (member_stream r.tenant_id r.member) r.member.version tenant id info
              st.db.events
            ∙ live)
          st.members h.sealed;
    numbered = h.numbered;
    linked = h.linked;
  }
