-- ===== src/Postgres/EventStore/Append/Gate.antt =====
-- The gate of `append` in packages/postgres/src/pg-event-store.ts.
use eventfabric.Base.{
  ℕ, ◌+◌, ◌==◌, ◌≡◌, ◌⊎◌, refl, sym, ap, Str, Option, none, some, List, [], ◌∷◌, ◌++◌, arith,
  length, if◌then◌else◌, Bool-cases, Option-cases, inl, inr, ok, and_then-ok, ==_iff,
}
use eventfabric.Core.Integrity.HashChain.{stream_genesis}
use eventfabric.Postgres.EventStore.Tables.{
  StreamId, StreamVersion, PgEventStore, Backend, same_stream, same_stream→eq, find_stream,
  set_stream,
}
use eventfabric.Postgres.EventStore.Verify.{head_of}
use eventfabric.Postgres.EventStore.Rows.{AppendParams, chain_batch, is_chained}
use eventfabric.Postgres.EventStore.Append.{
  start_gate, chained_gate, plain_gate, gate, previous_hash, insert_stream, no_hashes,
}
use eventfabric.Postgres.EventStore.Versions.{
  version_of, find_stream-set_stream, find_stream-append, find_stream-stream,
}

insert_stream-ok :
    (s : StreamId) (n : ℕ) (head : Option Str) (hashes hs : List (Option Str))
    (vs vs' : List StreamVersion)
    → insert_stream s n head hashes vs ≡ ok (hs, vs')
    → (find_stream s vs ≡ none)
      × (hs ≡ hashes)
      × (vs' ≡ vs ++ record { stream = s; current_version = n; head_hash = head } ∷ [])
insert_stream-ok s n head hashes hs vs vs' h = elim (Option-cases (find_stream s vs)) [
  | inl missing ↦ (missing, ground (arith, missing), ground (arith, missing))
  | inr (v, found) ↦ absurd (ground (arith, found))
]

module _ {P : Type 0} where
  -- The stream was at the expected version, its row now has the new version and a head, and the
  -- rows of other streams are what they were.
  pub record Passes (s : StreamId) (p : AppendParams P) (vs vs' : List StreamVersion)
      (head : Option Str) : Type 0 where
    pub was : version_of (find_stream s vs) ≡ p.expected_aggregate_version
    pub now :
        (t : StreamId)
        → find_stream t vs' ≡ (
            if same_stream s t
            then some (record {
              stream = s;
              current_version = p.expected_aggregate_version + length p.events;
              head_hash = head;
            })
            else find_stream t vs)
    -- The rows are those of an UPDATE or of an INSERT.
    pub rows :
        (vs' ≡ set_stream s (p.expected_aggregate_version + length p.events) head vs)
        ⊎ (vs'
            ≡ vs
              ++ record {
                stream = s;
                current_version = p.expected_aggregate_version + length p.events;
                head_hash = head;
              }
                ∷ [])

  set_stream-Passes :
      (s : StreamId) (p : AppendParams P) (vs : List StreamVersion) (head : Option Str)
      (v : StreamVersion)
      → find_stream s vs ≡ some v
      → v.current_version ≡ p.expected_aggregate_version
      → Passes s p vs (set_stream s (p.expected_aggregate_version + length p.events) head vs) head
  set_stream-Passes s p vs head v found e = record {
    was = rw found e;
    now = λ t. ground (
      arith,
      found,
      same_stream→eq s t,
      find_stream-stream s vs found,
      find_stream-set_stream s t (p.expected_aggregate_version + length p.events) head vs,
    );
    rows = inl refl;
  }

  insert_stream-Passes :
      (s : StreamId) (p : AppendParams P) (vs : List StreamVersion) (head : Option Str)
      → find_stream s vs ≡ none
      → p.expected_aggregate_version ≡ 0
      → Passes s p vs
          (vs ++ record { stream = s; current_version = length p.events; head_hash = head } ∷ [])
          head
  insert_stream-Passes s p vs head missing e = record {
    was = rw missing (omega (arith, e));
    now = λ t. ground (
      arith,
      same_stream→eq s t,
      e,
      find_stream-append t
          (record { stream = s; current_version = length p.events; head_hash = head }) vs,
    );
    rows =
        let same : length p.events ≡ p.expected_aggregate_version + length p.events =
          omega (arith, e) in
        inr
          (ap (λ n. vs ++ record { stream = s; current_version = n; head_hash = head } ∷ []) same);
  }

module _ {P : Type 0} (backend : Backend P) (random_uuid : ℕ → Str) where
  -- Where the aggregate is chained, the hashes continue from the stored head, or from the genesis
  -- hash if there is none, and the last is the new head; else there are none and the head stays.
  abbrev pub HashesOf :
      Option Str → StreamId → AppendParams P → Option Str → List (Option Str) → Option Str → Type 0
  HashesOf none s p old hashes head = (hashes ≡ no_hashes p) × (head ≡ old)
  HashesOf (some secret) s p old hashes head =
      (prev : Str) × (h : Str) × (previous_hash backend secret s old ≡ ok prev)
      × (chain_batch backend random_uuid secret s p.meta p.expected_aggregate_version 0 prev
            p.events
          ≡ ok (hashes, h))
      × (head ≡ some h)

  -- What a gate that is passed has done.
  abbrev pub Passed :
      Option Str
      → StreamId
      → AppendParams P
      → List StreamVersion
      → List (Option Str)
      → List StreamVersion
      → Type 0
  Passed secret s p vs hashes vs' =
      (head : Option Str) × Passes s p vs vs' head
      × HashesOf secret s p (head_of (find_stream s vs)) hashes head

  start_gate-Passed :
      (secret : Option Str) (s : StreamId) (p : AppendParams P) (vs : List StreamVersion)
      (hashes : List (Option Str)) (vs' : List StreamVersion)
      → p.expected_aggregate_version ≡ 0
      → start_gate backend random_uuid secret s p vs ≡ ok (hashes, vs')
      → Passed secret s p vs hashes vs'
  unfolding start_gate
  start_gate-Passed none s p vs hashes vs' e h =
      let i = insert_stream-ok s (length p.events) none (no_hashes p) hashes vs vs' h in
      (none, rw i.2 (insert_stream-Passes s p vs none i.0 e), (i.1, ap head_of (sym i.0)))
  start_gate-Passed (some secret) s p vs hashes vs' e h =
      let (genesis, g, k) =
        and_then-ok (stream_genesis backend.host secret s.tenant_id s.aggregate_name s.aggregate_id)
          _ h in
      let ((hs, head), c, l) =
        and_then-ok (chain_batch backend random_uuid secret s p.meta 0 0 genesis p.events) _ k in
      let i = insert_stream-ok s (length p.events) (some head) hs hashes vs vs' l in
      (
        some head,
        rw i.2 (insert_stream-Passes s p vs (some head) i.0 e),
        (genesis, head, rw i.0 g, rw (e, i.1) c, refl),
      )

  plain_gate-Passed :
      (s : StreamId) (p : AppendParams P) (vs : List StreamVersion) (hashes : List (Option Str))
      (vs' : List StreamVersion)
      → plain_gate s p vs ≡ ok (hashes, vs')
      → Passed none s p vs hashes vs'
  unfolding plain_gate
  plain_gate-Passed s p vs hashes vs' h = elim (Option-cases (find_stream s vs)) [
    | inl missing ↦ absurd (ground (arith, missing))
    | inr (v, found) ↦
        let same : v.current_version ≡ p.expected_aggregate_version = ground (arith, found) in
        let moved : (hashes ≡ no_hashes p)
            × (vs' ≡ set_stream s (p.expected_aggregate_version + length p.events) v.head_hash vs) =
          (ground (arith, found), ground (arith, found)) in
        (
          v.head_hash,
          rw moved.1 (set_stream-Passes s p vs v.head_hash v found same),
          (moved.0, rw found refl),
        )
  ]

  chained_gate-Passed :
      (secret : Str) (s : StreamId) (p : AppendParams P) (vs : List StreamVersion)
      (hashes : List (Option Str)) (vs' : List StreamVersion)
      → chained_gate backend random_uuid secret s p vs ≡ ok (hashes, vs')
      → Passed (some secret) s p vs hashes vs'
  unfolding chained_gate
  chained_gate-Passed secret s p vs hashes vs' h = elim (Option-cases (find_stream s vs)) [
    | inl missing ↦ absurd (ground (arith, missing))
    | inr (v, found) ↦ elim (Bool-cases (v.current_version == p.expected_aggregate_version)) [
      | inr e ↦ absurd (ground (arith, found, e))
      | inl e ↦
          let (prev, g, k) =
            and_then-ok (previous_hash backend secret s v.head_hash) _
              (rw (found, chained_gate, e) at h) in
          let ((hs, head), c, l) =
            and_then-ok
              (chain_batch backend random_uuid secret s p.meta p.expected_aggregate_version 0 prev
                p.events)
              _ k in
          let moved : (hashes ≡ hs)
              × (vs'
                  ≡ set_stream s (p.expected_aggregate_version + length p.events) (some head) vs) =
            (ground arith, ground arith) in
          (
            some head,
            rw moved.1 (set_stream-Passes s p vs (some head) v found ((==_iff _ _).0 e)),
            (prev, head, rw found g, rw moved.0 c, refl),
          )
    ]
  ]

  pub gate-Passed :
      (store : PgEventStore P) (s : StreamId) (p : AppendParams P) (vs : List StreamVersion)
      (hashes : List (Option Str)) (vs' : List StreamVersion)
      → gate backend random_uuid store s p vs ≡ ok (hashes, vs')
      → Passed (is_chained store p.aggregate_name) s p vs hashes vs'
  unfolding gate
  gate-Passed store s p vs hashes vs' h = elim (Bool-cases (p.expected_aggregate_version == 0)) [
    | inl e ↦
        start_gate-Passed (is_chained store p.aggregate_name) s p vs hashes vs' (ground arith)
          (ground (arith, e))
    | inr e ↦ elim (Option-cases (is_chained store p.aggregate_name)) [
      | inl c ↦ rw c (plain_gate-Passed s p vs hashes vs' (ground (arith, e, c)))
      | inr (secret, c) ↦ rw c (chained_gate-Passed secret s p vs hashes vs' (ground (arith, e, c)))
    ]
  ]
