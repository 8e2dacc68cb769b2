-- ===== src/Base/Sorting.antt =====
-- `Array.prototype.sort` by a numeric key: stable, ascending.
use Prim.Native.Nat.{ℕ, zero, suc, ◌≤◌}
use mathlib.Core.Path.{◌≡◌, refl, subst}
use mathlib.Core.Logic.{◌⊎◌, inl, inr}
use mathlib.Core.Bool.{Bool}
use mathlib.Core.List.{List, [], ◌∷◌, Memᴰ}
use native.Mathlib.Omega.{arith}
use eventfabric.Base.Tests.{leb, leb→le, if◌then◌else◌, Bool-cases}
use eventfabric.Base.Lists.{All, All-map, All-Memᴰ, take, length, keep, keep-All}

module _ {ℓ} {A : Type ℓ} where
  insert_by : (A → ℕ) → A → List A → List A
  insert_by key x [] = x ∷ []
  insert_by key x (y ∷ ys) = if leb (key x) (key y) then x ∷ y ∷ ys else y ∷ insert_by key x ys

  unfoldable pub sort_by : (A → ℕ) → List A → List A
  unfolding insert_by
  sort_by key [] = []
  sort_by key (x ∷ xs) = insert_by key x (sort_by key xs)

  -- Each item's key is at most the keys behind it.
  abbrev pub SortedBy : (A → ℕ) → List A → Type ℓ
  SortedBy key [] = Unit
  SortedBy key (x ∷ xs) = All (λ y. key x ≤ key y) xs × SortedBy key xs

module _ {ℓ κ} {A : Type ℓ} (key : A → ℕ) (P : A → Type κ) where
  insert_by-All : (x : A) (xs : List A) → P x → All P xs → All P (insert_by key x xs)
  unfolding insert_by
  insert_by-All x [] p h = (p, tt)
  insert_by-All x (y ∷ ys) p h = elim (Bool-cases (leb (key x) (key y))) [
    | inl t ↦ rw t (p, h)
    | inr f ↦ rw f (h.0, insert_by-All x ys p h.1)
  ]

  pub sort_by-All : (xs : List A) → All P xs → All P (sort_by key xs)
  unfolding sort_by
  sort_by-All [] h = tt
  sort_by-All (x ∷ xs) h = insert_by-All x (sort_by key xs) h.0 (sort_by-All xs h.1)

module _ {ℓ} {A : Type ℓ} (key : A → ℕ) where
  insert_by-SortedBy : (x : A) (xs : List A) → SortedBy key xs → SortedBy key (insert_by key x xs)
  unfolding insert_by
  insert_by-SortedBy x [] h = (tt, tt)
  insert_by-SortedBy x (y ∷ ys) h = elim (Bool-cases (leb (key x) (key y))) [
    | inl t ↦
        let below : key x ≤ key y = leb→le (key x) (key y) t in
        rw t ((below, All-map _ _ (λ z (q : key y ≤ key z). omega arith) ys h.0), h)
    | inr f ↦ rw f (
      insert_by-All key (λ z. key y ≤ key z) x ys (ground arith) h.0,
      insert_by-SortedBy x ys h.1,
    )
  ]

  pub sort_by-SortedBy : (xs : List A) → SortedBy key (sort_by key xs)
  unfolding sort_by
  sort_by-SortedBy [] = tt
  sort_by-SortedBy (x ∷ xs) = insert_by-SortedBy x (sort_by key xs) (sort_by-SortedBy xs)

  insert_by-Memᴰ_self : (x : A) (xs : List A) → Memᴰ x (insert_by key x xs)
  unfolding insert_by
  insert_by-Memᴰ_self x [] = Memᴰ.head refl
  insert_by-Memᴰ_self x (y ∷ ys) = elim (Bool-cases (leb (key x) (key y))) [
    | inl t ↦ rw t (Memᴰ.head refl)
    | inr f ↦ rw f (Memᴰ.tail (insert_by-Memᴰ_self x ys))
  ]

  insert_by-Memᴰ : (x : A) {z : A} (xs : List A) → Memᴰ z xs → Memᴰ z (insert_by key x xs)
  unfolding insert_by
  insert_by-Memᴰ x [] m = elim m [ ]
  insert_by-Memᴰ x (y ∷ ys) (Memᴰ.head e) = elim (Bool-cases (leb (key x) (key y))) [
    | inl t ↦ rw t (Memᴰ.tail (Memᴰ.head e))
    | inr f ↦ rw f (Memᴰ.head e)
  ]
  insert_by-Memᴰ x (y ∷ ys) (Memᴰ.tail m) = elim (Bool-cases (leb (key x) (key y))) [
    | inl t ↦ rw t (Memᴰ.tail (Memᴰ.tail m))
    | inr f ↦ rw f (Memᴰ.tail (insert_by-Memᴰ x ys m))
  ]

  pub sort_by-Memᴰ : {z : A} (xs : List A) → Memᴰ z xs → Memᴰ z (sort_by key xs)
  unfolding sort_by
  sort_by-Memᴰ [] m = elim m [ ]
  sort_by-Memᴰ {z} (x ∷ xs) (Memᴰ.head e) =
      subst (λ y. Memᴰ z (insert_by key y (sort_by key xs))) e
        (insert_by-Memᴰ_self z (sort_by key xs))
  sort_by-Memᴰ (x ∷ xs) (Memᴰ.tail m) = insert_by-Memᴰ x (sort_by key xs) (sort_by-Memᴰ xs m)

  -- An item of a sorted list is among the first `n`, or none of these has a larger key and there
  -- are `n` of them.
  pub take-SortedBy :
      (n : ℕ) {z : A} (xs : List A)
      → SortedBy key xs
      → Memᴰ z xs
      → Memᴰ z (take n xs) ⊎ (All (λ x. key x ≤ key z) (take n xs) × (length (take n xs) ≡ n))
  take-SortedBy n [] h m = elim m [ ]
  take-SortedBy zero (x ∷ xs) h m = inr (tt, refl)
  take-SortedBy (suc n) (x ∷ xs) h (Memᴰ.head e) = inl (Memᴰ.head e)
  take-SortedBy (suc n) {z} (x ∷ xs) h (Memᴰ.tail m) = elim (take-SortedBy n xs h.1 m) [
    | inl i ↦ inl (Memᴰ.tail i)
    | inr r ↦ inr ((All-Memᴰ (λ y. key x ≤ key y) xs h.0 m, r.0), omega (arith, r.1))
  ]

  insert_by_first :
      (x : A) (xs : List A) → All (λ y. key x ≤ key y) xs → insert_by key x xs ≡ x ∷ xs
  unfolding insert_by
  insert_by_first x [] h = refl
  insert_by_first x (y ∷ ys) h = ground (arith, h.0)

  -- A sorted list stays as it is.
  pub sort_by_sorted : (xs : List A) → SortedBy key xs → sort_by key xs ≡ xs
  unfolding sort_by
  sort_by_sorted [] h = refl
  sort_by_sorted (x ∷ xs) h = rw (sort_by_sorted xs h.1) (insert_by_first x xs h.0)

  pub keep-SortedBy : (p : A → Bool) (xs : List A) → SortedBy key xs → SortedBy key (keep p xs)
  keep-SortedBy p [] h = tt
  keep-SortedBy p (x ∷ xs) h = elim (Bool-cases (p x)) [
    | inl t ↦ rw t (keep-All (λ y. key x ≤ key y) p xs h.0, keep-SortedBy p xs h.1)
    | inr e ↦ rw e (keep-SortedBy p xs h.1)
  ]
