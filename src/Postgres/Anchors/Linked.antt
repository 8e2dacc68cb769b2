-- ===== src/Postgres/Anchors/Linked.antt =====
-- The chain of anchors of packages/postgres/src/chain-anchor-sealer.ts.
use eventfabric.Base.{
  ℕ, suc, ◌+◌, ◌≤◌, ◌≡◌, refl, ap, Str, Bool, none, some, List, [], ◌∷◌, ◌++◌, All, All-map, arith,
  length, SortedBy, sort_by, sort_by_sorted, ok,
}
use eventfabric.Core.Integrity.HashChain.{compute_anchor_hash}
use eventfabric.Postgres.EventStore.Tables.{Backend}
use eventfabric.Postgres.EventStore.Verify.Loop.{hashes_equal_self}
use eventfabric.Postgres.Anchors.Tables.{Anchor, SealedHead, anchor_seq_of, last_of, members_of}
use eventfabric.Postgres.Anchors.Seal.{last_seq, previous_anchor_hash}
use eventfabric.Postgres.Anchors.Check.{all_checked, check_anchors}

-- The number and the hash of the last of a list of anchors behind another.
abbrev pub end_seq : ℕ → List Anchor → ℕ
end_seq n [] = n
end_seq n (a ∷ later) = end_seq a.anchor_seq later

abbrev pub end_hash : Str → List Anchor → Str
end_hash p [] = p
end_hash p (a ∷ later) = end_hash a.anchor_hash later

pub end_seq-snoc : (n : ℕ) (xs : List Anchor) (a : Anchor) → end_seq n (xs ++ a ∷ []) ≡ a.anchor_seq
end_seq-snoc n [] a = refl
end_seq-snoc n (x ∷ xs) a = end_seq-snoc x.anchor_seq xs a

last_seq-some :
    (b : Anchor) (xs : List Anchor) → last_seq (last_of (some b) xs) ≡ end_seq b.anchor_seq xs
last_seq-some b [] = refl
last_seq-some b (x ∷ xs) = last_seq-some x xs

pub last_seq-last_of : (xs : List Anchor) → last_seq (last_of none xs) ≡ end_seq 0 xs
last_seq-last_of [] = refl
last_seq-last_of (x ∷ xs) = last_seq-some x xs

module _ {P : Type 0} (backend : Backend P) (secret : Str) (text_before : Str → Str → Bool)
    (tenant : Str) where
  previous-some :
      (b : Anchor) (xs : List Anchor) {prev : Str}
      → previous_anchor_hash backend secret text_before tenant (last_of (some b) xs) ≡ ok prev
      → end_hash b.anchor_hash xs ≡ prev
  previous-some b [] e = ground arith
  previous-some b (x ∷ xs) e = previous-some x xs e

  -- The hash that a new anchor is linked to is that of the last anchor, or the genesis hash.
  pub previous-end_hash :
      (genesis : Str) (xs : List Anchor) {prev : Str}
      → previous_anchor_hash backend secret text_before tenant none ≡ ok genesis
      → previous_anchor_hash backend secret text_before tenant (last_of none xs) ≡ ok prev
      → end_hash genesis xs ≡ prev
  previous-end_hash genesis [] g e = ground arith
  previous-end_hash genesis (x ∷ xs) g e = previous-some x xs e

  -- The anchors are numbered behind `n` and linked behind the hash `p`, and each has the hash of
  -- its members.
  abbrev pub Linked : List SealedHead → ℕ → Str → List Anchor → Type 0
  Linked rows n p [] = Unit
  Linked rows n p (a ∷ later) =
      (a.anchor_seq ≡ suc n)
      × (a.prev_anchor_hash ≡ p)
      × (compute_anchor_hash backend.host secret p (members_of text_before tenant a.anchor_seq rows)
          ≡ ok a.anchor_hash)
      × Linked rows a.anchor_seq a.anchor_hash later

  Linked-above :
      (rows : List SealedHead) (n : ℕ) (p : Str) (xs : List Anchor)
      → Linked rows n p xs
      → (n ≤ end_seq n xs) × All (λ a. n ≤ a.anchor_seq) xs
  Linked-above rows n p [] h = (omega arith, tt)
  Linked-above rows n p (a ∷ later) h =
      let (up, above) = Linked-above rows a.anchor_seq a.anchor_hash later h.3 in
      (
        omega (arith, h.0),
        (
          omega (arith, h.0),
          All-map _ _ (λ b (q : a.anchor_seq ≤ b.anchor_seq). omega (arith, h.0)) later above,
        ),
      )

  pub Linked-le :
      (rows : List SealedHead) (n : ℕ) (p : Str) (xs : List Anchor)
      → Linked rows n p xs
      → All (λ a. a.anchor_seq ≤ end_seq n xs) xs
  Linked-le rows n p [] h = tt
  Linked-le rows n p (a ∷ later) h = (
    (Linked-above rows a.anchor_seq a.anchor_hash later h.3).0,
    Linked-le rows a.anchor_seq a.anchor_hash later h.3,
  )

  Linked-SortedBy :
      (rows : List SealedHead) (n : ℕ) (p : Str) (xs : List Anchor)
      → Linked rows n p xs
      → SortedBy anchor_seq_of xs
  Linked-SortedBy rows n p [] h = tt
  Linked-SortedBy rows n p (a ∷ later) h = (
    (Linked-above rows a.anchor_seq a.anchor_hash later h.3).1,
    Linked-SortedBy rows a.anchor_seq a.anchor_hash later h.3,
  )

  pub Linked-snoc :
      (rows : List SealedHead) (n : ℕ) (p : Str) (xs : List Anchor) (a : Anchor)
      → Linked rows n p xs
      → Linked rows (end_seq n xs) (end_hash p xs) (a ∷ [])
      → Linked rows n p (xs ++ a ∷ [])
  Linked-snoc rows n p [] a h k = k
  Linked-snoc rows n p (x ∷ xs) a h k =
      (h.0, h.1, h.2, Linked-snoc rows x.anchor_seq x.anchor_hash xs a h.3 k)

  -- Rows that agree on the members of the anchors are linked alike.
  pub Linked-rows :
      (rows rows' : List SealedHead) (n : ℕ) (p : Str) (xs : List Anchor)
      → ((seq : ℕ)
          → seq ≤ end_seq n xs
          → members_of text_before tenant seq rows' ≡ members_of text_before tenant seq rows)
      → Linked rows n p xs
      → Linked rows' n p xs
  Linked-rows rows rows' n p [] same h = tt
  Linked-rows rows rows' n p (a ∷ later) same h =
      let up = (Linked-above rows a.anchor_seq a.anchor_hash later h.3).0 in
      (
        h.0,
        h.1,
        rw (same a.anchor_seq up) h.2,
        Linked-rows rows rows' a.anchor_seq a.anchor_hash later same h.3,
      )

  pub anchors_in_order :
      (rows : List SealedHead) (n : ℕ) (p : Str) (xs : List Anchor)
      → Linked rows n p xs
      → sort_by anchor_seq_of xs ≡ xs
  anchors_in_order rows n p xs h = sort_by_sorted anchor_seq_of xs (Linked-SortedBy rows n p xs h)

  -- The loop goes over all anchors that are linked.
  pub check_anchors-Linked :
      (rows : List SealedHead) (k n : ℕ) (p : Str) (xs : List Anchor)
      → Linked rows n p xs
      → check_anchors backend secret text_before tenant rows k p xs
        ≡ ok (all_checked (k + length xs))
  unfolding check_anchors
  check_anchors-Linked rows k n p [] h = ap (λ m. ok (all_checked m)) (omega arith)
  check_anchors-Linked rows k n p (a ∷ later) h =
      let same : suc k + length later ≡ k + suc (length later) = omega arith in
      rw
        (
          h.1,
          hashes_equal_self p,
          h.2,
          hashes_equal_self a.anchor_hash,
          check_anchors-Linked rows (suc k) a.anchor_seq a.anchor_hash later h.3,
          same,
        )
        refl
