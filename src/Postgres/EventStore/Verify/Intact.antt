-- ===== src/Postgres/EventStore/Verify/Intact.antt =====
-- What an intact result of `verifyStream` in packages/postgres/src/pg-event-store.ts says.
use eventfabric.Base.{
  ℕ, ◌≡◌, sym, ap, ◌∙◌, Str, true, Option, none, some, List, [], ◌∷◌, arith, Bool-cases,
  Option-cases, List-cases, inl, inr, ok, and_then-ok, ◌⊎◌, ◌≢◌,
}
use eventfabric.Core.Integrity.HashChain.{hashes_equal, stream_genesis}
use eventfabric.Postgres.EventStore.Tables.{StreamId, EventRow, Backend}
use eventfabric.Postgres.EventStore.Verify.{
  Walk, broken, walked, walk, verify_rows, protected_rows, ChainVerificationResult, walk_result,
}
use eventfabric.Postgres.EventStore.Verify.Loop.{hashes_equal_self, hashes_equal→eq}

abbrev pub intact_result : StreamId → ℕ → ChainVerificationResult
intact_result s n = record {
  intact = true;
  stream = s;
  events_checked = n;
  first_broken_at = none;
  reason = none;
}

hashes_equal-none : (h : Str) → hashes_equal (some h) none ≢ true
unfolding hashes_equal
hashes_equal-none h e = cc

module _ {P : Type 0} (backend : Backend P) (secret : Str) (s : StreamId) where
  -- What an intact result says: nothing is protected and no head is stored, or the protected rows
  -- are walked from the genesis hash to the stored head.
  abbrev pub Verified : List (EventRow P) → Option Str → ℕ → Type 0
  Verified rows stored n =
      ((protected_rows rows ≡ []) × (stored ≡ none) × (n ≡ 0))
      ⊎ ((r : EventRow P) × (rs : List (EventRow P)) × (genesis p : Str) × (next : ℕ)
          × (protected_rows rows ≡ r ∷ rs)
          × (stream_genesis backend.host secret s.tenant_id s.aggregate_name s.aggregate_id
              ≡ ok genesis)
          × (walk backend secret s genesis 0 r.aggregate_version (r ∷ rs) ≡ ok (walked p n next))
          × (stored ≡ some p))

  pub Verified-verify_rows :
      (rows : List (EventRow P)) (stored : Option Str) (n : ℕ)
      → Verified rows stored n
      → verify_rows backend secret s rows stored ≡ ok (intact_result s n)
  unfolding verify_rows
  Verified-verify_rows rows stored n (inl (e, none_stored, z)) = ground (arith, e, none_stored, z)
  Verified-verify_rows rows stored n (inr (r, rs, genesis, p, next, e, g, w, head)) =
      ground (arith, e, g, w, head, hashes_equal_self p)

  walk_result-intact :
      (stored : Option Str) (w : Walk)
      → (walk_result s stored w).intact ≡ true
      → (p : Str) × (next : ℕ) × (w ≡ walked p (walk_result s stored w).events_checked next)
        × (stored ≡ some p)
  walk_result-intact stored (broken checked version reason) t = cc
  walk_result-intact none (walked p checked next) t = absurd (ground (arith, hashes_equal-none p))
  walk_result-intact (some head) (walked p checked next) t =
      elim (Bool-cases (hashes_equal (some p) (some head))) [
        | inr differ ↦ absurd (ground (arith, differ))
        | inl equal ↦ (p, next, ground (arith, equal), ap some (sym (hashes_equal→eq p head equal)))
      ]

  pub verify_rows-Verified :
      (rows : List (EventRow P)) (stored : Option Str) {v : ChainVerificationResult}
      → verify_rows backend secret s rows stored ≡ ok v
      → v.intact ≡ true
      → Verified rows stored v.events_checked
  unfolding verify_rows
  verify_rows-Verified rows stored {v} e t = elim (List-cases (protected_rows rows)) [
    | inl unprotected ↦ elim (Option-cases stored) [
      | inl none_stored ↦ inl (unprotected, none_stored, ground (arith, unprotected, none_stored))
      | inr (head, there) ↦ absurd (ground (arith, unprotected, there))
    ]
    | inr (r, rs, chain) ↦
        let (genesis, g, k) =
          and_then-ok
            (stream_genesis backend.host secret s.tenant_id s.aggregate_name s.aggregate_id) _
            (rw (chain, verify_rows) at e) in
        let (w, passed, l) =
          and_then-ok (walk backend secret s genesis 0 r.aggregate_version (r ∷ rs)) _ k in
        let same : walk_result s stored w ≡ v = ground arith in
        let (p, next, end, head) = walk_result-intact stored w (rw (← same) at t) in
        inr (
          r,
          rs,
          genesis,
          p,
          next,
          chain,
          g,
          passed
              ∙ ap ok
                  (end ∙ ap (λ (u : ChainVerificationResult). walked p u.events_checked next) same),
          head,
        )
  ]
