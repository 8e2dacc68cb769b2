-- ===== src/SagasPostgres/StateStore/Agree.antt =====
-- When the rows of packages/sagas-postgres/src/pg-saga-state-store.ts and the map of
-- packages/sagas/src/in-memory-saga-state-store.ts hold the same instances.
use eventfabric.Base.{
  ℕ, ◌==◌, ◌≡◌, refl, sym, ap, ◌∙◌, Str, true, none, some, List, [], ◌∷◌, ◌++◌, count-append, arith,
  if◌then◌else◌, str_eq, str_eq→eq, str_eq_refl, Bool-cases, inl, inr, lookup, insert,
  lookup-insert, IsColonFree,
}
use eventfabric.Sagas.Saga.{SagaInstance}
use eventfabric.Sagas.StateStore.{StateStore, key, key_of}
use eventfabric.Sagas.StateStore.Laws.{key-injective}
use eventfabric.SagasPostgres.StateStore.{has_key, find, update_where, stored, set_columns, expects}
use eventfabric.SagasPostgres.StateStore.Find.{
  find-append, find-none, IsUnique, changed, find-update, count-update,
}
use eventfabric.SagasPostgres.StateStore.Calls.{updated_map}

module _ {S : Type 0} where
  -- The two hold the same instances, by keys without colons in their first two parts.
  pub record Agree (rows : List (SagaInstance S)) (m : StateStore S) : Type 0 where
    pub unique : IsUnique rows
    pub same :
        (s n t : Str) → IsColonFree s → IsColonFree t → find s n t rows ≡ lookup (key s n t) m

  key-has_key :
      (i : SagaInstance S) (s n t : Str)
      → IsColonFree s
      → IsColonFree t
      → IsColonFree i.saga_name
      → IsColonFree i.tenant_id
      → str_eq (key_of i) (key s n t) ≡ has_key s n t i
  unfolding has_key
  key-has_key i s n t hs ht is it = elim (Bool-cases (str_eq (key_of i) (key s n t))) [
    | inl e ↦
        let (name, id, tenant) =
          key-injective i.saga_name s i.instance_id n i.tenant_id t is hs it ht
            (str_eq→eq (key_of i) (key s n t) e) in
        rw e (ground (arith, name, id, tenant, str_eq_refl s, str_eq_refl n, str_eq_refl t))
    | inr f ↦ elim (Bool-cases (has_key s n t i)) [
      | inr g ↦ f ∙ sym g
      | inl g ↦ ground (
        arith,
        str_eq→eq i.tenant_id t,
        str_eq→eq i.saga_name s,
        str_eq→eq i.instance_id n,
        str_eq_refl (key_of i),
      )
    ]
  ]

  has_key→eq :
      (i : SagaInstance S) (s n t : Str)
      → has_key s n t i ≡ true
      → (i.saga_name ≡ s) × (i.instance_id ≡ n) × (i.tenant_id ≡ t)
  unfolding has_key
  has_key→eq i s n t h =
      ground (arith, str_eq→eq i.tenant_id t, str_eq→eq i.saga_name s, str_eq→eq i.instance_id n)

  find-has_key :
      (s n t : Str) (rows : List (SagaInstance S)) (row : SagaInstance S)
      → find s n t rows ≡ some row
      → has_key s n t row ≡ true
  unfolding find
  find-has_key s n t [] row h = ground arith
  find-has_key s n t (r ∷ rows) row h = ground (arith, find-has_key s n t rows row)

  -- The row of an instance is the row of every key that is its key.
  find-same :
      (i : SagaInstance S) (s n t : Str) (rows : List (SagaInstance S))
      → has_key s n t i ≡ true
      → find s n t rows ≡ find i.saga_name i.instance_id i.tenant_id rows
  find-same i s n t rows h =
      let (name, id, tenant) = has_key→eq i s n t h in rw (name, id, tenant) refl

  stored_same : (f : S → S) (i : SagaInstance S) → f i.state ≡ i.state → stored f i ≡ i
  stored_same f i h = ap (λ (x : S). record i { state = x }) h

  set_columns_same :
      (f : S → S) (i row : SagaInstance S)
      → f i.state ≡ i.state
      → row.created_at ≡ i.created_at
      → has_key i.saga_name i.instance_id i.tenant_id row ≡ true
      → set_columns f i row ≡ i
  set_columns_same f i row h c k =
      let (name, id, tenant) = has_key→eq row i.saga_name i.instance_id i.tenant_id k in
      λ j. record i {
        saga_name = name j;
        instance_id = id j;
        tenant_id = tenant j;
        created_at = c j;
        state = h j;
      }

  pub insert-new :
      (f : S → S) (i : SagaInstance S) (rows : List (SagaInstance S)) (m : StateStore S)
      → IsColonFree i.saga_name
      → IsColonFree i.tenant_id
      → f i.state ≡ i.state
      → Agree rows m
      → find i.saga_name i.instance_id i.tenant_id rows ≡ none
      → Agree (rows ++ stored f i ∷ []) (insert (key_of i) i m)
  unfolding find
  insert-new f i rows m is it h a e = rw (stored_same f i h) record {
    unique = λ s n t. ground (
      arith,
      count-append (has_key s n t) rows (i ∷ []),
      find-same i s n t rows,
      find-none s n t rows,
      a.unique s n t,
    );
    same = λ s n t hs ht. ground (
      arith,
      find-append s n t rows (i ∷ []),
      find-same i s n t rows,
      lookup-insert (key_of i) (key s n t) i m,
      key-has_key i s n t hs ht is it,
      a.same s n t hs ht,
    );
  }

  changed_same :
      (f : S → S) (i row : SagaInstance S) (v : ℕ)
      → f i.state ≡ i.state
      → row.created_at ≡ i.created_at
      → has_key i.saga_name i.instance_id i.tenant_id row ≡ true
      → changed f i v (some row) ≡ (if row.state_version == v then some i else some row)
  changed_same f i row v h c k = rw (set_columns_same f i row h c k) refl

  pub update-row :
      (f : S → S) (i row : SagaInstance S) (v : ℕ) (rows : List (SagaInstance S)) (m : StateStore S)
      → IsColonFree i.saga_name
      → IsColonFree i.tenant_id
      → f i.state ≡ i.state
      → row.created_at ≡ i.created_at
      → Agree rows m
      → find i.saga_name i.instance_id i.tenant_id rows ≡ some row
      → Agree (update_where (expects f i v) (set_columns f i) rows) (updated_map i row v m)
  update-row f i row v rows m is it h c a e =
      let k = find-has_key i.saga_name i.instance_id i.tenant_id rows row e in
      record {
        unique = λ s n t. rw (count-update f i v s n t rows) (a.unique s n t);
        same = λ s n t hs ht. ground (
          arith,
          find-update f i v s n t rows,
          changed_same f i row v h c k,
          find-same i s n t rows,
          lookup-insert (key_of i) (key s n t) i m,
          key-has_key i s n t hs ht is it,
          a.same s n t hs ht,
        );
      }

  pub update-missing :
      (f : S → S) (i : SagaInstance S) (v : ℕ) (rows : List (SagaInstance S)) (m : StateStore S)
      → Agree rows m
      → find i.saga_name i.instance_id i.tenant_id rows ≡ none
      → Agree (update_where (expects f i v) (set_columns f i) rows) m
  update-missing f i v rows m a e = record {
    unique = λ s n t. rw (count-update f i v s n t rows) (a.unique s n t);
    same = λ s n t hs ht.
        ground (arith, find-update f i v s n t rows, find-same i s n t rows, a.same s n t hs ht);
  }
