-- ===== src/SagasPostgres/StateStore/Find.antt =====
-- The rows of packages/sagas-postgres/src/pg-saga-state-store.ts by their keys.
use eventfabric.Base.{
  ℕ, ◌≤◌, ltb, ◌==◌, ◌≡◌, refl, Str, Bool, true, false, Option, none, some, List, [], ◌∷◌, ◌++◌,
  count, arith, if◌then◌else◌, str_eq→eq, str_eq_refl,
}
use eventfabric.Sagas.Saga.{SagaInstance}
use eventfabric.SagasPostgres.StateStore.{has_key, find, update_where, set_columns, expects}

module _ {S : Type 0} where
  has_key-same :
      (i row : SagaInstance S) (s n t : Str)
      → has_key i.saga_name i.instance_id i.tenant_id row ≡ true
      → has_key s n t row ≡ has_key s n t i
  unfolding has_key
  has_key-same i row s n t h = ground (
    arith,
    str_eq→eq row.tenant_id i.tenant_id,
    str_eq→eq row.saga_name i.saga_name,
    str_eq→eq row.instance_id i.instance_id,
  )

  has_key_join :
      (i row : SagaInstance S) (s n t : Str)
      → has_key s n t row ≡ true
      → has_key s n t i ≡ true
      → has_key i.saga_name i.instance_id i.tenant_id row ≡ true
  unfolding has_key
  has_key_join i row s n t h g = ground (
    arith,
    str_eq→eq row.tenant_id t,
    str_eq→eq row.saga_name s,
    str_eq→eq row.instance_id n,
    str_eq→eq i.tenant_id t,
    str_eq→eq i.saga_name s,
    str_eq→eq i.instance_id n,
    str_eq_refl t,
    str_eq_refl s,
    str_eq_refl n,
  )

  has_key-set_columns :
      (f : S → S) (i row : SagaInstance S) (s n t : Str)
      → has_key s n t (set_columns f i row) ≡ has_key s n t row
  unfolding has_key
  has_key-set_columns f i row s n t = refl

  abbrev pub or_found : Option (SagaInstance S) → Option (SagaInstance S) → Option (SagaInstance S)
  or_found none later = later
  or_found (some row) later = some row

  pub find-append :
      (s n t : Str) (rows more : List (SagaInstance S))
      → find s n t (rows ++ more) ≡ or_found (find s n t rows) (find s n t more)
  unfolding find
  find-append s n t [] more = refl
  find-append s n t (row ∷ rows) more = ground (arith, find-append s n t rows more)

  pub find-none :
      (s n t : Str) (rows : List (SagaInstance S))
      → find s n t rows ≡ none
      → count (has_key s n t) rows ≡ 0
  unfolding find
  find-none s n t [] h = refl
  find-none s n t (row ∷ rows) h = ground (arith, find-none s n t rows)

  -- How many rows a key has; no key has two.
  abbrev pub IsUnique : List (SagaInstance S) → Type 0
  IsUnique rows = (s n t : Str) → count (has_key s n t) rows ≤ 1

  count-expects-le :
      (f : S → S) (i : SagaInstance S) (v : ℕ) (rows : List (SagaInstance S))
      → count (expects f i v) rows ≤ count (has_key i.saga_name i.instance_id i.tenant_id) rows
  count-expects-le f i v [] = omega arith
  count-expects-le f i v (row ∷ rows) = ground (arith, count-expects-le f i v rows)

  abbrev pub has_version : ℕ → Option (SagaInstance S) → Bool
  has_version v none = false
  has_version v (some row) = row.state_version == v

  -- An UPDATE finds a row where the row of the key has the version.
  pub count-expects :
      (f : S → S) (i : SagaInstance S) (v : ℕ) (rows : List (SagaInstance S))
      → count (has_key i.saga_name i.instance_id i.tenant_id) rows ≤ 1
      → ltb 0 (count (expects f i v) rows)
        ≡ has_version v (find i.saga_name i.instance_id i.tenant_id rows)
  unfolding find
  count-expects f i v [] h = refl
  count-expects f i v (row ∷ rows) h =
      ground (arith, count-expects-le f i v rows, count-expects f i v rows)

  abbrev pub changed :
      (S → S) → SagaInstance S → ℕ → Option (SagaInstance S) → Option (SagaInstance S)
  changed f i v none = none
  changed f i v (some row) = if row.state_version == v then some (set_columns f i row) else some row

  -- The row of a key behind an UPDATE.
  pub find-update :
      (f : S → S) (i : SagaInstance S) (v : ℕ) (s n t : Str) (rows : List (SagaInstance S))
      → find s n t (update_where (expects f i v) (set_columns f i) rows)
        ≡ (if has_key s n t i then changed f i v (find s n t rows) else find s n t rows)
  unfolding find update_where
  find-update f i v s n t [] = ground arith
  find-update f i v s n t (row ∷ rows) = ground (
    arith,
    has_key-same i row s n t,
    has_key_join i row s n t,
    has_key-set_columns f i row s n t,
    find-update f i v s n t rows,
  )

  -- No key gets another row.
  pub count-update :
      (f : S → S) (i : SagaInstance S) (v : ℕ) (s n t : Str) (rows : List (SagaInstance S))
      → count (has_key s n t) (update_where (expects f i v) (set_columns f i) rows)
        ≡ count (has_key s n t) rows
  unfolding update_where
  count-update f i v s n t [] = refl
  count-update f i v s n t (row ∷ rows) =
      ground (arith, has_key-set_columns f i row s n t, count-update f i v s n t rows)
