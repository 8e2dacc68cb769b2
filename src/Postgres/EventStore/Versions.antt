-- ===== src/Postgres/EventStore/Versions.antt =====
-- The versions of a stream's rows in packages/postgres/src/pg-event-store.ts, and its row of
-- `stream_versions`.
use eventfabric.Base.{
  ℕ, suc, ◌≤◌, ◌<◌, leb, ◌≡◌, refl, Bool, Option, none, some, List, [], ◌∷◌, ◌++◌, Str, map, arith,
  keep, All, All-map, SortedBy, sort_by_sorted, keep-SortedBy, keep_both, if◌then◌else◌,
}
use eventfabric.Core.Projections.EventLog.{is_wanted}
use eventfabric.Postgres.EventStore.Tables.{
  StreamId, StreamVersion, EventRow, Db, PgEventStore, same_stream, same_stream→eq, find_stream,
  set_stream,
}
use eventfabric.Postgres.EventStore.Rows.{map_row}
use eventfabric.Postgres.EventStore.Reads.{in_stream, row_version, stream_rows, load_stream}

abbrev pub version_of : Option StreamVersion → ℕ
version_of none = 0
version_of (some v) = v.current_version

-- The version that `stream_versions` has for a stream; 0 for none.
abbrev pub current_version : {P : Type 0} → StreamId → Db P → ℕ
current_version s db = version_of (find_stream s db.stream_versions)

-- An UPDATE changes the row of its stream only.
abbrev pub changed : ℕ → Option Str → Option StreamVersion → Option StreamVersion
changed n head none = none
changed n head (some v) = some (record v { current_version = n; head_hash = head })

pub find_stream-set_stream :
    (s t : StreamId) (n : ℕ) (head : Option Str) (vs : List StreamVersion)
    → find_stream t (set_stream s n head vs)
      ≡ (if same_stream s t then changed n head (find_stream t vs) else find_stream t vs)
unfolding find_stream set_stream
find_stream-set_stream s t n head [] = ground arith
find_stream-set_stream s t n head (v ∷ vs) = ground (
  arith,
  same_stream→eq v.stream s,
  same_stream→eq v.stream t,
  same_stream→eq s t,
  find_stream-set_stream s t n head vs,
)

abbrev pub or_new : StreamId → StreamVersion → Option StreamVersion → Option StreamVersion
or_new t new none = if same_stream new.stream t then some new else none
or_new t new (some v) = some v

pub find_stream-append :
    (t : StreamId) (new : StreamVersion) (vs : List StreamVersion)
    → find_stream t (vs ++ new ∷ []) ≡ or_new t new (find_stream t vs)
unfolding find_stream
find_stream-append t new [] = refl
find_stream-append t new (v ∷ vs) = ground (arith, find_stream-append t new vs)

pub find_stream-stream :
    (s : StreamId) (vs : List StreamVersion) {w : StreamVersion}
    → find_stream s vs ≡ some w
    → w.stream ≡ s
unfolding find_stream
find_stream-stream s [] h = cc
find_stream-stream s (v ∷ vs) {w} h =
    ground (arith, same_stream→eq v.stream s, find_stream-stream s vs {w = w})

module _ {P : Type 0} where
  -- The rows have the versions behind one number up to another, in order.
  abbrev pub Numbered : ℕ → List (EventRow P) → ℕ → Type 0
  Numbered n [] m = n ≡ m
  Numbered n (r ∷ rs) m = (r.aggregate_version ≡ suc n) × Numbered (suc n) rs m

  pub Numbered-append :
      (n m k : ℕ) (rs qs : List (EventRow P))
      → Numbered n rs m
      → Numbered m qs k
      → Numbered n (rs ++ qs) k
  Numbered-append n m k [] qs h g = rw h g
  Numbered-append n m k (r ∷ rs) qs h g = (h.0, Numbered-append (suc n) m k rs qs h.1 g)

  Numbered-above :
      (n m : ℕ) (rs : List (EventRow P)) → Numbered n rs m → All (λ r. n ≤ row_version r) rs
  Numbered-above n m [] h = tt
  Numbered-above n m (r ∷ rs) h = (
    omega (arith, h.0),
    All-map _ _ (λ q (b : suc n ≤ row_version q). omega arith) rs (Numbered-above (suc n) m rs h.1),
  )

  Numbered-SortedBy : (n m : ℕ) (rs : List (EventRow P)) → Numbered n rs m → SortedBy row_version rs
  Numbered-SortedBy n m [] h = tt
  Numbered-SortedBy n m (r ∷ rs) h =
      (rw h.0 (Numbered-above (suc n) m rs h.1), Numbered-SortedBy (suc n) m rs h.1)

  -- The rows of each stream are numbered from 1 to its version, in the order of their positions; a
  -- stream that is there has a version above 0.
  pub record IsConsistent (db : Db P) : Type 0 where
    pub numbered : (s : StreamId) → Numbered 0 (keep (in_stream s) db.events) (current_version s db)
    pub started :
        (s : StreamId) (v : StreamVersion)
        → find_stream s db.stream_versions ≡ some v
        → 0 < v.current_version

  pub stream_rows-keep :
      (s : StreamId) (db : Db P)
      → IsConsistent db
      → stream_rows s db.events ≡ keep (in_stream s) db.events
  unfolding stream_rows
  stream_rows-keep s db c = sort_by_sorted row_version _ (Numbered-SortedBy 0 _ _ (c.numbered s))

  pub load_stream-keep :
      (store : PgEventStore P) (s : StreamId) (from : ℕ) (include_dismissed : Bool) (db : Db P)
      → IsConsistent db
      → load_stream store s from include_dismissed db
        ≡ keep (is_wanted include_dismissed) (
            map
              (map_row store)
              (keep (λ r. leb from r.aggregate_version) (keep (in_stream s) db.events)))
  unfolding load_stream
  load_stream-keep store s from include_dismissed db c =
      rw
        (
          keep_both (in_stream s) (λ r. leb from r.aggregate_version) db.events,
          sort_by_sorted row_version _ (
              keep-SortedBy row_version (λ r. leb from r.aggregate_version) _
                (Numbered-SortedBy 0 _ _ (c.numbered s))),
        )
        refl
