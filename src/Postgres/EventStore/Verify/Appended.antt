-- ===== src/Postgres/EventStore/Verify/Appended.antt =====
-- `verifyStream` of packages/postgres/src/pg-event-store.ts on a stream that `append` has
-- continued.
use eventfabric.Base.{
  ℕ, suc, ◌+◌, ◌<◌, ◌≡◌, refl, subst, ◌∙◌, Str, Bool, true, false, Option, some, List, [], ◌∷◌,
  ◌++◌, arith, length, if◌then◌else◌, Option-cases, inl, inr, ok, and_then-ok,
}
use eventfabric.Core.Types.{Event}
use eventfabric.Core.Integrity.Json.Order.{SameJson}
use eventfabric.Core.Integrity.HashChain.{compute_event_hash}
use eventfabric.Core.Integrity.HashChain.Stored.{compute_event_hash-SameJson}
use eventfabric.Postgres.EventStore.Tables.{StreamId, EventRow, Backend}
use eventfabric.Postgres.EventStore.Rows.{Meta, chainable, chain_batch, new_row, new_rows}
use eventfabric.Postgres.EventStore.Verify.{walked, walk, protected_rows}
use eventfabric.Postgres.EventStore.Verify.Loop.{walk-append, walk_next, walk-expected}
use eventfabric.Postgres.EventStore.Append.{previous_hash}
use eventfabric.Postgres.EventStore.Verify.Intact.{Verified}
use eventfabric.Postgres.EventStore.Versions.{Numbered}

abbrev is_nil {ℓ} : {A : Type ℓ} → List A → Bool
is_nil [] = true
is_nil (x ∷ xs) = false

-- An event that is read back from its column has the JSON value that was written, up to the order
-- of keys and what JSON leaves out.
abbrev pub KeepsJson : {P : Type 0} → Backend P → Type 0
KeepsJson {P} backend =
    (e : Event P) → SameJson (backend.to_json e) (backend.to_json (backend.through_jsonb e))

module _ {P : Type 0} (backend : Backend P) (random_uuid : ℕ → Str) (now : ℕ)
    (keeps : KeepsJson backend) (secret : Str) (s : StreamId) (meta : Meta) (base : ℕ) where
  -- The rows of a batch are walked to the hash that the batch ends with.
  pub walk-new_rows :
      (i position checked : ℕ) (p : Str) (es : List (Event P)) (hashes : List (Option Str))
      (head : Str)
      → chain_batch backend random_uuid secret s meta base i p es ≡ ok (hashes, head)
      → walk backend secret s p checked
          (suc (base + i))
          (new_rows backend random_uuid now s meta base i position hashes es)
        ≡ ok (walked head (checked + length es) (suc (base + i + length es)))
  unfolding chain_batch new_rows walk
  walk-new_rows i position checked p [] hashes head e = ground arith
  walk-new_rows i position checked p (x ∷ xs) hashes head e =
      let (h, computed, k) =
        and_then-ok
          (compute_event_hash backend.host secret p
            (chainable backend s meta (random_uuid i) (suc (base + i)) x.type x.version x))
          _ e in
      let ((hs, last), rest, l) =
        and_then-ok (chain_batch backend random_uuid secret s meta base (suc i) h xs) _ k in
      let moved : (hashes ≡ some h ∷ hs) × (head ≡ last) = (ground arith, ground arith) in
      let row = new_row backend random_uuid now s meta base i position (some h) x in
      let again =
        compute_event_hash-SameJson backend.host secret p
          (chainable backend s meta (random_uuid i) (suc (base + i)) x.type x.version x)
          (backend.to_json (backend.through_jsonb x)) (keeps x)
        ∙ computed in
      let behind = walk-new_rows (suc i) (suc position) (suc checked) h xs hs last rest in
      let index : base + suc i ≡ suc (base + i) = omega arith in
      rw (moved.0, moved.1)
        (walk_next backend secret s p checked (suc (base + i)) row _ h refl refl again
          ∙ (rw index at behind)
          ∙ ground arith)

module _ {P : Type 0} where
  protected-append :
      (rs qs : List (EventRow P))
      → protected_rows (rs ++ qs)
        ≡ (if is_nil (protected_rows rs) then protected_rows qs else protected_rows rs ++ qs)
  unfolding protected_rows
  protected-append [] qs = refl
  protected-append (r ∷ rs) qs = elim (Option-cases r.event_hash) [
    | inl missing ↦ rw missing (protected-append rs qs)
    | inr (h, there) ↦ rw there refl
  ]

  protected-Numbered :
      (n m : ℕ) (rows : List (EventRow P)) {r : EventRow P} {rs : List (EventRow P)}
      → Numbered n rows m
      → protected_rows rows ≡ r ∷ rs
      → (k : ℕ) × Numbered k (r ∷ rs) m
  unfolding protected_rows
  protected-Numbered n m [] h e = absurd (cc)
  protected-Numbered n m (q ∷ qs) h e = elim (Option-cases q.event_hash) [
    | inl missing ↦ protected-Numbered (suc n) m qs h.1 (rw missing at e)
    | inr (d, there) ↦ (n, subst (λ l. Numbered n l m) (rw there at e) h)
  ]

module _ {P : Type 0} (backend : Backend P) (random_uuid : ℕ → Str) (now : ℕ)
    (keeps : KeepsJson backend) (secret : Str) (s : StreamId) (meta : Meta)
    (base position : ℕ) where
  chain_batch-first :
      (i : ℕ) (p : Str) (e : Event P) (es : List (Event P)) {hashes : List (Option Str)}
      {head : Str}
      → chain_batch backend random_uuid secret s meta base i p (e ∷ es) ≡ ok (hashes, head)
      → (h : Str) × (hs : List (Option Str)) × (hashes ≡ some h ∷ hs)
  unfolding chain_batch
  chain_batch-first i p e es c =
      let (h, _, k) =
        and_then-ok
          (compute_event_hash backend.host secret p
            (chainable backend s meta (random_uuid i) (suc (base + i)) e.type e.version e))
          _ c in
      let ((hs, last), _, l) =
        and_then-ok (chain_batch backend random_uuid secret s meta base (suc i) h es) _ k in
      (h, hs, ground arith)

  -- Rows that are chained behind verified ones are verified with these.
  pub new_rows-Verified :
      (rows : List (EventRow P)) (stored : Option Str) (c : ℕ) (es : List (Event P))
      (hashes : List (Option Str)) (prev head : Str)
      → Numbered 0 rows base
      → Verified backend secret s rows stored c
      → previous_hash backend secret s stored ≡ ok prev
      → chain_batch backend random_uuid secret s meta base 0 prev es ≡ ok (hashes, head)
      → 0 < length es
      → Verified backend secret s
          (rows ++ new_rows backend random_uuid now s meta base 0 position hashes es)
          (some head)
          (c + length es)
  unfolding protected_rows new_rows
  new_rows-Verified rows stored c [] hashes prev head num v prior chain pos = elim pos [ ]
  new_rows-Verified rows stored c (x ∷ xs) hashes prev head num (inl (e, none_stored, z)) prior
        chain pos =
      let (h, hs, given) = chain_batch-first 0 prev x xs chain in
      let rest = new_rows backend random_uuid now s meta base 1 (suc position) hs xs in
      let behind : protected_rows
            (rows ++ new_rows backend random_uuid now s meta base 0 position hashes (x ∷ xs))
          ≡ new_row backend random_uuid now s meta base 0 position (some h) x ∷ rest =
        protected-append rows _ ∙ rw (e, given) refl in
      let walks =
        walk-new_rows backend random_uuid now keeps secret s meta base 0 position 0 prev (x ∷ xs)
          (some h ∷ hs) head (rw given at chain) in
      inr (
        new_row backend random_uuid now s meta base 0 position (some h) x,
        rest,
        prev,
        head,
        suc (base + 0 + length (x ∷ xs)),
        behind,
        rw none_stored at prior,
        rw z walks,
        refl,
      )
  new_rows-Verified rows stored c (x ∷ xs) hashes prev head num
        (inr (r, rs, genesis, p, next, e, g, w, stored_head)) prior chain pos =
      let new = new_rows backend random_uuid now s meta base 0 position hashes (x ∷ xs) in
      let (k, numbered) = protected-Numbered 0 base rows num e in
      let behind : protected_rows (rows ++ new) ≡ r ∷ (rs ++ new) =
        protected-append rows new ∙ rw e refl in
      let expected : next ≡ suc (base + 0) =
        walk-expected backend secret s genesis 0 r.aggregate_version k base (r ∷ rs) numbered.0
          numbered w
        ∙ omega arith in
      let same : p ≡ prev = ground (arith, stored_head) in
      let walks =
        walk-new_rows backend random_uuid now keeps secret s meta base 0 position c prev (x ∷ xs)
          hashes head chain in
      let all : walk backend secret s genesis 0 r.aggregate_version (r ∷ (rs ++ new))
          ≡ ok (walked head (c + length (x ∷ xs)) (suc (base + 0 + length (x ∷ xs)))) =
        walk-append backend secret s genesis 0 r.aggregate_version (r ∷ rs) new
        ∙ rw (w, expected, same) walks in
      inr (r, rs ++ new, genesis, head, suc (base + 0 + length (x ∷ xs)), behind, g, all, refl)
