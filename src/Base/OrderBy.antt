-- ===== src/Base/OrderBy.antt =====
-- `ORDER BY` with a comparison that the database gives.
use Prim.Native.Nat.{suc}
use mathlib.Core.Path.{◌≡◌, refl, sym, ap, subst, ◌∙◌}
use mathlib.Core.Logic.{◌⊎◌, inl, inr}
use mathlib.Core.Bool.{Bool, true, false}
use mathlib.Core.List.{List, [], ◌∷◌, Memᴰ}
use native.Mathlib.Omega.{arith}
use eventfabric.Base.Tests.{if◌then◌else◌, Bool-cases}
use eventfabric.Base.Lists.{All-Memᴰ, All, All-map, Memᴰ-keep, length, kept_passing, keep, keep-All}

module _ {ℓ} {A : Type ℓ} where
  place : (A → A → Bool) → A → List A → List A
  place before x [] = x ∷ []
  place before x (y ∷ ys) = if before x y then x ∷ y ∷ ys else y ∷ place before x ys

  unfoldable pub order_by : (A → A → Bool) → List A → List A
  unfolding place
  order_by before [] = []
  order_by before (x ∷ xs) = place before x (order_by before xs)

  -- Each item comes before all that are behind it.
  abbrev pub Ordered : (A → A → Bool) → List A → Type ℓ
  Ordered before [] = Unit
  Ordered before (x ∷ xs) = All (λ y. before x y ≡ true) xs × Ordered before xs

module _ {ℓ} {A : Type ℓ} (before : A → A → Bool) where
  -- Of two items one comes before the other, and what comes before goes on.
  pub record IsOrder : Type ℓ where
    pub total : (x y : A) → before x y ≡ false → before y x ≡ true
    pub trans : (x y z : A) → before x y ≡ true → before y z ≡ true → before x z ≡ true

  place-first : (x : A) (xs : List A) → All (λ y. before x y ≡ true) xs → place before x xs ≡ x ∷ xs
  unfolding place
  place-first x [] h = refl
  place-first x (y ∷ ys) h = ground (arith, h.0)

  -- What is in order stays as it is.
  pub order_by-Ordered_self : (xs : List A) → Ordered before xs → order_by before xs ≡ xs
  unfolding order_by
  order_by-Ordered_self [] h = refl
  order_by-Ordered_self (x ∷ xs) h = rw (order_by-Ordered_self xs h.1) (place-first x xs h.0)

  pub keep-Ordered : (p : A → Bool) (xs : List A) → Ordered before xs → Ordered before (keep p xs)
  keep-Ordered p [] h = tt
  keep-Ordered p (x ∷ xs) h = elim (Bool-cases (p x)) [
    | inl t ↦ rw t (keep-All (λ y. before x y ≡ true) p xs h.0, keep-Ordered p xs h.1)
    | inr e ↦ rw e (keep-Ordered p xs h.1)
  ]

  place-All {κ} :
      (P : A → Type κ) (x : A) (xs : List A) → P x → All P xs → All P (place before x xs)
  unfolding place
  place-All P x [] p h = (p, tt)
  place-All P x (y ∷ ys) p h = elim (Bool-cases (before x y)) [
    | inl t ↦ rw t (p, h)
    | inr f ↦ rw f (h.0, place-All P x ys p h.1)
  ]

  pub order_by-All {κ} : (P : A → Type κ) (xs : List A) → All P xs → All P (order_by before xs)
  unfolding order_by
  order_by-All P [] h = tt
  order_by-All P (x ∷ xs) h = place-All P x (order_by before xs) h.0 (order_by-All P xs h.1)

  place-Ordered :
      IsOrder → (x : A) (xs : List A) → Ordered before xs → Ordered before (place before x xs)
  unfolding place
  place-Ordered o x [] h = (tt, tt)
  place-Ordered o x (y ∷ ys) h = elim (Bool-cases (before x y)) [
    | inl t ↦ rw t ((t, All-map _ _ (λ z q. o.trans x y z t q) ys h.0), h)
    | inr f ↦
        rw f (place-All (λ z. before y z ≡ true) x ys (o.total x y f) h.0, place-Ordered o x ys h.1)
  ]

  pub order_by-Ordered : IsOrder → (xs : List A) → Ordered before (order_by before xs)
  unfolding order_by
  order_by-Ordered o [] = tt
  order_by-Ordered o (x ∷ xs) = place-Ordered o x (order_by before xs) (order_by-Ordered o xs)

  place-Memᴰ_self : (x : A) (xs : List A) → Memᴰ x (place before x xs)
  unfolding place
  place-Memᴰ_self x [] = Memᴰ.head refl
  place-Memᴰ_self x (y ∷ ys) = elim (Bool-cases (before x y)) [
    | inl t ↦ rw t (Memᴰ.head refl)
    | inr f ↦ rw f (Memᴰ.tail (place-Memᴰ_self x ys))
  ]

  place-Memᴰ : (x : A) {z : A} (xs : List A) → Memᴰ z xs → Memᴰ z (place before x xs)
  unfolding place
  place-Memᴰ x [] m = elim m [ ]
  place-Memᴰ x (y ∷ ys) (Memᴰ.head e) = elim (Bool-cases (before x y)) [
    | inl t ↦ rw t (Memᴰ.tail (Memᴰ.head e))
    | inr f ↦ rw f (Memᴰ.head e)
  ]
  place-Memᴰ x (y ∷ ys) (Memᴰ.tail m) = elim (Bool-cases (before x y)) [
    | inl t ↦ rw t (Memᴰ.tail (Memᴰ.tail m))
    | inr f ↦ rw f (Memᴰ.tail (place-Memᴰ x ys m))
  ]

  pub order_by-Memᴰ : {z : A} (xs : List A) → Memᴰ z xs → Memᴰ z (order_by before xs)
  unfolding order_by
  order_by-Memᴰ [] m = elim m [ ]
  order_by-Memᴰ {z} (x ∷ xs) (Memᴰ.head e) =
      subst (λ y. Memᴰ z (place before y (order_by before xs))) e
        (place-Memᴰ_self z (order_by before xs))
  order_by-Memᴰ (x ∷ xs) (Memᴰ.tail m) = place-Memᴰ x (order_by before xs) (order_by-Memᴰ xs m)

  length-place : (x : A) (xs : List A) → length (place before x xs) ≡ suc (length xs)
  unfolding place
  length-place x [] = refl
  length-place x (y ∷ ys) = ground (arith, length-place x ys)

  pub length-order_by : (xs : List A) → length (order_by before xs) ≡ length xs
  unfolding order_by
  length-order_by [] = refl
  length-order_by (x ∷ xs) = length-place x (order_by before xs) ∙ ap suc (length-order_by xs)

module _ {ℓ} {A : Type ℓ} (same : A → A → Bool) where
  -- `DISTINCT ON`: of the items with the same columns the first is kept.
  unfoldable pub distinct_on : List A → List A
  distinct_on [] = []
  distinct_on (x ∷ xs) = x ∷ keep (λ y. if same x y then false else true) (distinct_on xs)

  pub distinct_on-All {κ} : (P : A → Type κ) (xs : List A) → All P xs → All P (distinct_on xs)
  unfolding distinct_on
  distinct_on-All P [] h = tt
  distinct_on-All P (x ∷ xs) h = (h.0, keep-All P _ (distinct_on xs) (distinct_on-All P xs h.1))

module _ {A : Type 0} (same before : A → A → Bool) where
  -- `DISTINCT ON` keeps, for each item, one with the same columns that comes first.
  pub distinct_on-first :
      ((x : A) → same x x ≡ true)
      → ((x y z : A) → same x y ≡ true → same y z ≡ true → same x z ≡ true)
      → (xs : List A) → Ordered before xs
      → (m : A) → Memᴰ m xs
      → (q : A) × Memᴰ q (distinct_on same xs) × (same q m ≡ true) × ((q ≡ m) ⊎ (before q m ≡ true))
  unfolding distinct_on
  distinct_on-first self trans [] h m i = elim i [ ]
  distinct_on-first self trans (x ∷ xs) h m (Memᴰ.head e) =
      (x, Memᴰ.head refl, rw e (self x), inl (sym e))
  distinct_on-first self trans (x ∷ xs) h m (Memᴰ.tail i) =
      let (q, kept, like, earlier) = distinct_on-first self trans xs h.1 m i in
      elim (Bool-cases (same x q)) [
        | inl t ↦ (
          x,
          Memᴰ.head refl,
          trans x q m t like,
          inr (All-Memᴰ (λ y. before x y ≡ true) xs h.0 i),
        )
        | inr f ↦ (
          q,
          Memᴰ.tail (
              Memᴰ-keep (λ y. if same x y then false else true) (distinct_on same xs) kept
                (rw f refl)),
          like,
          earlier,
        )
      ]

  -- Of the items that are kept no two have the same columns.
  pub distinct_on_unique :
      ((x y : A) → same x y ≡ true → same y x ≡ true)
      → (xs : List A) {p q : A} → Memᴰ p (distinct_on same xs)
      → Memᴰ q (distinct_on same xs)
      → same p q ≡ true
      → p ≡ q
  unfolding distinct_on
  distinct_on_unique sym_same [] i j h = elim i [ ]
  distinct_on_unique sym_same (x ∷ xs) (Memᴰ.head e) (Memᴰ.head f) h = e ∙ sym f
  distinct_on_unique sym_same (x ∷ xs) {p} {q} (Memᴰ.head e) (Memᴰ.tail j) h =
      let (_, passed) =
        kept_passing (λ y. if same x y then false else true) (distinct_on same xs) j in
      let like : same x q ≡ true = rw (← e) h in absurd (ground (arith, passed, like))
  distinct_on_unique sym_same (x ∷ xs) {p} {q} (Memᴰ.tail i) (Memᴰ.head f) h =
      let (_, passed) =
        kept_passing (λ y. if same x y then false else true) (distinct_on same xs) i in
      let like : same x p ≡ true = rw (← f) (sym_same p q h) in
      absurd (ground (arith, passed, like))
  distinct_on_unique sym_same (x ∷ xs) (Memᴰ.tail i) (Memᴰ.tail j) h =
      let test = λ (y : A). if same x y then false else true in
      distinct_on_unique sym_same xs (kept_passing test (distinct_on same xs) i).0
        (kept_passing test (distinct_on same xs) j).0 h
