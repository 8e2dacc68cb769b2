-- ===== src/Postgres/Anchors/Live.antt =====
-- The look-up of an event's hash in packages/postgres/src/chain-anchor-sealer.ts, in a log that
-- grows.
use eventfabric.Base.{
  ℕ, suc, ◌+◌, ◌<◌, ◌≤◌, ◌≡◌, refl, ap, subst, ◌∙◌, Str, Option, none, some, List, [], ◌∷◌, ◌++◌,
  map, keep, arith, length, ok, and_then-ok, Bool-cases, inl, inr,
}
use eventfabric.Core.Types.{Event, Dismissal}
use eventfabric.Core.Integrity.HashChain.{compute_event_hash}
use eventfabric.Postgres.EventStore.Tables.{StreamId, EventRow, Db, Backend, same_stream_refl}
use eventfabric.Postgres.EventStore.Rows.{Meta, chain_batch, new_row, new_rows, chainable}
use eventfabric.Postgres.EventStore.Reads.{in_stream, mark_dismissed, dismiss}
use eventfabric.Postgres.EventStore.Versions.{Numbered, IsConsistent}
use eventfabric.Postgres.Anchors.Tables.{live_hash}

abbrev pub or_later : Option (Option Str) → Option (Option Str) → Option (Option Str)
or_later none later = later
or_later (some h) later = some h

module _ {P : Type 0} where
  pub live_hash-append :
      (s : StreamId) (n : ℕ) (xs ys : List (EventRow P))
      → live_hash s n (xs ++ ys) ≡ or_later (live_hash s n xs) (live_hash s n ys)
  unfolding live_hash
  live_hash-append s n [] ys = refl
  live_hash-append s n (r ∷ rs) ys = ground (arith, live_hash-append s n rs ys)

  live_hash_later :
      (s : StreamId) (n : ℕ) (r : EventRow P) (rs : List (EventRow P))
      → r.aggregate_version < n
      → live_hash s n (r ∷ rs) ≡ live_hash s n rs
  unfolding live_hash
  live_hash_later s n r rs h = ground arith

  Numbered-le : (k m : ℕ) (rs : List (EventRow P)) → Numbered k rs m → k ≤ m
  Numbered-le k m [] h = omega (arith, h)
  Numbered-le k m (r ∷ rs) h = omega (arith, Numbered-le (suc k) m rs h.1)

  pub live_hash-above :
      (s : StreamId) (n k m : ℕ) (rs : List (EventRow P))
      → Numbered k (keep (in_stream s) rs) m
      → m < n
      → live_hash s n rs ≡ none
  unfolding live_hash
  live_hash-above s n k m [] h l = refl
  live_hash-above s n k m (r ∷ rs) h l = elim (Bool-cases (in_stream s r)) [
    | inl t ↦
        let h' = rw t at h in
        let up = Numbered-le (suc k) m (keep (in_stream s) rs) h'.1 in
        let rest = live_hash-above s n (suc k) m rs h'.1 l in let version = h'.0 in ground arith
    | inr f ↦ let h' = rw f at h in let rest = live_hash-above s n k m rs h' l in ground arith
  ]

  pub live_hash-dismissed :
      (s : StreamId) (n : ℕ) (t id : Str) (info : Dismissal) (rs : List (EventRow P))
      → live_hash s n (map (mark_dismissed t id info) rs) ≡ live_hash s n rs
  unfolding live_hash
  live_hash-dismissed s n t id info [] = refl
  live_hash-dismissed s n t id info (r ∷ rs) = ground (arith, live_hash-dismissed s n t id info rs)

  Numbered-dismissed :
      (s : StreamId) (k m : ℕ) (t id : Str) (info : Dismissal) (rs : List (EventRow P))
      → Numbered k (keep (in_stream s) rs) m
      → Numbered k (keep (in_stream s) (map (mark_dismissed t id info) rs)) m
  Numbered-dismissed s k m t id info [] h = h
  Numbered-dismissed s k m t id info (r ∷ rs) h =
      ground
        (arith, Numbered-dismissed s (suc k) m t id info rs, Numbered-dismissed s k m t id info rs)

  pub dismiss-IsConsistent :
      (t id : Str) (info : Dismissal) (db : Db P)
      → IsConsistent db
      → IsConsistent (dismiss t id info db)
  unfolding dismiss
  dismiss-IsConsistent t id info db c = record {
    numbered = λ s. Numbered-dismissed s 0 _ t id info db.events (c.numbered s);
    started = c.started;
  }

module _ {P : Type 0} (backend : Backend P) (random_uuid : ℕ → Str) (now : ℕ) (secret : Str)
    (s : StreamId) (meta : Meta) where
  -- The last row of a chained batch has the new head.
  pub live_hash-new_rows :
      (base i position : ℕ) (p : Str) (e : Event P) (es : List (Event P)) (hs : List (Option Str))
      (head : Str)
      → chain_batch backend random_uuid secret s meta base i p (e ∷ es) ≡ ok (hs, head)
      → live_hash s
          (suc (base + i) + length es)
          (new_rows backend random_uuid now s meta base i position hs (e ∷ es))
        ≡ some (some head)
  unfolding chain_batch new_rows live_hash
  live_hash-new_rows base i position p e [] hs head h =
      let (k, _, l) =
        and_then-ok
          (compute_event_hash backend.host secret p
            (chainable backend s meta (random_uuid i) (suc (base + i)) e.type e.version e))
          _ h in
      ground (arith, same_stream_refl s)
  live_hash-new_rows base i position p e (e' ∷ es) hs head h =
      let (k, _, l) =
        and_then-ok
          (compute_event_hash backend.host secret p
            (chainable backend s meta (random_uuid i) (suc (base + i)) e.type e.version e))
          _ h in
      let ((hs', head'), c, q) =
        and_then-ok (chain_batch backend random_uuid secret s meta base (suc i) k (e' ∷ es)) _ l in
      let rest = live_hash-new_rows base (suc i) (suc position) k e' es hs' head' c in
      let same : suc (base + suc i) + length es ≡ suc (base + i) + suc (length es) = omega arith in
      let hashes : some k ∷ hs' ≡ hs = ground arith in
      let last : head' ≡ head = ground arith in
      let first = new_row backend random_uuid now s meta base i position (some k) e in
      let later =
        new_rows backend random_uuid now s meta base (suc i) (suc position) hs' (e' ∷ es) in
      let skipped = live_hash_later s (suc (base + suc i) + length es) first later (omega arith) in
      subst
        (λ n.
          live_hash s n (new_rows backend random_uuid now s meta base i position hs (e ∷ e' ∷ es))
          ≡ some (some head))
        same
        (subst
          (λ l.
            live_hash s (suc (base + suc i) + length es)
              (new_rows backend random_uuid now s meta base i position l (e ∷ e' ∷ es))
            ≡ some (some head))
          hashes (skipped ∙ (rest ∙ ap (λ h. some (some h)) last)))
