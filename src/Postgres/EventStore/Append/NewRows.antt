-- ===== src/Postgres/EventStore/Append/NewRows.antt =====
-- The rows that `append` of packages/postgres/src/pg-event-store.ts inserts.
use eventfabric.Base.{
  ℕ, suc, ◌+◌, leb, ◌≡◌, refl, sym, ap, Str, Bool, Option, none, List, [], ◌∷◌, map, arith, length,
  if◌then◌else◌, keep, All,
}
use eventfabric.Core.Types.{Event}
use eventfabric.Core.Projections.EventLog.{is_wanted}
use eventfabric.Postgres.EventStore.Tables.{StreamId, EventRow, PgEventStore, Backend, same_stream}
use eventfabric.Postgres.EventStore.Rows.{Meta, new_rows, map_row, later_hashes, upcast}
use eventfabric.Postgres.EventStore.Reads.{in_stream}
use eventfabric.Postgres.EventStore.Versions.{Numbered}

module _ {P : Type 0} (backend : Backend P) (random_uuid : ℕ → Str) (now : ℕ) where
  pub new_rows-stream :
      (s : StreamId) (meta : Meta) (base i position : ℕ) (hs : List (Option Str))
      (es : List (Event P))
      → All (λ r. r.stream ≡ s) (new_rows backend random_uuid now s meta base i position hs es)
  unfolding new_rows
  new_rows-stream s meta base i position hs [] = tt
  new_rows-stream s meta base i position hs (e ∷ es) =
      (refl, new_rows-stream s meta base (suc i) (suc position) _ es)

  pub new_rows-undismissed :
      (s : StreamId) (meta : Meta) (base i position : ℕ) (hs : List (Option Str))
      (es : List (Event P))
      → All
          (λ r. r.dismissed ≡ none)
          (new_rows backend random_uuid now s meta base i position hs es)
  unfolding new_rows
  new_rows-undismissed s meta base i position hs [] = tt
  new_rows-undismissed s meta base i position hs (e ∷ es) =
      (refl, new_rows-undismissed s meta base (suc i) (suc position) _ es)

  pub new_rows-Numbered :
      (s : StreamId) (meta : Meta) (base i position n : ℕ) (hs : List (Option Str))
      (es : List (Event P))
      → n ≡ base + i
      → Numbered n (new_rows backend random_uuid now s meta base i position hs es) (n + length es)
  unfolding new_rows
  new_rows-Numbered s meta base i position n hs [] e = omega arith
  new_rows-Numbered s meta base i position n hs (x ∷ xs) e =
      let rest =
        new_rows-Numbered s meta base (suc i) (suc position) (suc n) (later_hashes hs) xs
          (omega arith) in
      let same : suc n + length xs ≡ n + suc (length xs) = omega arith in
      (ap suc (sym e), rw same at rest)

  pub new_rows-payloads :
      (store : PgEventStore P) (s : StreamId) (meta : Meta) (base i position : ℕ)
      (hs : List (Option Str)) (es : List (Event P))
      → map
          (λ env. env.payload)
          (map (map_row store) (new_rows backend random_uuid now s meta base i position hs es))
        ≡ map (λ e. upcast store.upcaster (backend.through_jsonb e)) es
  unfolding new_rows map_row
  new_rows-payloads store s meta base i position hs [] = refl
  new_rows-payloads store s meta base i position hs (e ∷ es) =
      ap (λ l. upcast store.upcaster (backend.through_jsonb e) ∷ l)
        (new_rows-payloads store s meta base (suc i) (suc position) _ es)

module _ {P : Type 0} (store : PgEventStore P) where
  pub keep-in_stream :
      (s t : StreamId) (rs : List (EventRow P))
      → All (λ r. r.stream ≡ s) rs
      → keep (in_stream t) rs ≡ (if same_stream s t then rs else [])
  keep-in_stream s t [] h = ground arith
  keep-in_stream s t (r ∷ rs) h = ground (arith, h.0, keep-in_stream s t rs h.1)

  pub undismissed_wanted :
      (from : ℕ) (include_dismissed : Bool) (rs : List (EventRow P))
      → All (λ r. r.dismissed ≡ none) rs
      → keep
          (is_wanted include_dismissed)
          (map (map_row store) (keep (λ r. leb from r.aggregate_version) rs))
        ≡ keep (λ env. leb from env.aggregate_version) (map (map_row store) rs)
  unfolding map_row
  undismissed_wanted from include_dismissed [] h = refl
  undismissed_wanted from include_dismissed (r ∷ rs) h =
      ground (arith, h.0, undismissed_wanted from include_dismissed rs h.1)
