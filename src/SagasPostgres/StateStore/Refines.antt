-- ===== src/SagasPostgres/StateStore/Refines.antt =====
-- The state store of packages/sagas-postgres/src/pg-saga-state-store.ts and the one of
-- packages/sagas/src/in-memory-saga-state-store.ts, by what callers of both see.
use eventfabric.Base.{
  ℕ, ◌≡◌, refl, sym, ap, subst, ◌∙◌, List, [], ◌∷◌, arith, Option-cases, inl, inr, lookup,
}
use eventfabric.Sagas.Saga.{SagaInstance}
use eventfabric.Sagas.StateStore as Memory
use eventfabric.Sagas.StateStore.{StateStore, key, key_of}
use eventfabric.SagasPostgres.StateStore.{find, load, update}
use eventfabric.SagasPostgres.StateStore.Find.{has_version, count-expects}
use eventfabric.SagasPostgres.StateStore.Agree.{Agree, insert-new, update-row, update-missing}
use eventfabric.SagasPostgres.StateStore.Calls.{
  StateCall, Seen, table_call, map_call, Fits, insert_instance-new, insert_instance-taken,
  insert_instance-new_map, insert_instance-taken_map, update-missing_map, update-row_map,
  table_calls, map_calls, FitsAll,
}

module _ {S : Type 0} where
  abbrev Refined : Seen S × List (SagaInstance S) → Seen S × StateStore S → Type 0
  Refined p q = (p.0 ≡ q.0) × Agree p.1 q.1

  -- Two calls are related when their results are.
  Refined-by :
      (p p' : Seen S × List (SagaInstance S)) (q q' : Seen S × StateStore S)
      → p ≡ p'
      → q ≡ q'
      → Refined p' q'
      → Refined p q
  Refined-by p p' q q' e d r = (
    ap (λ x. x.0) e ∙ (r.0 ∙ sym (ap (λ x. x.0) d)),
    subst (λ x. Agree x q.1) (sym (ap (λ x. x.1) e))
        (subst (λ x. Agree p'.1 x) (sym (ap (λ x. x.1) d)) r.1),
  )

  insert-Refined :
      (f : S → S) (i : SagaInstance S) (rows : List (SagaInstance S)) (m : StateStore S)
      → Fits f (StateCall.inserts i) rows
      → Agree rows m
      → Refined (table_call f (StateCall.inserts i) rows) (map_call (StateCall.inserts i) m)
  insert-Refined f i rows m (is, it, h) a =
      let e = sym (a.same i.saga_name i.instance_id i.tenant_id is it) in
      elim (Option-cases (find i.saga_name i.instance_id i.tenant_id rows)) [
        | inl g ↦
            Refined-by _ _ _ _ (insert_instance-new f i rows g)
              (insert_instance-new_map i m (e ∙ g)) (refl, insert-new f i rows m is it h a g)
        | inr (row, g) ↦
            Refined-by _ _ _ _ (insert_instance-taken f i row rows g)
              (insert_instance-taken_map i row m (e ∙ g)) (refl, a)
      ]

  update-Refined :
      (f : S → S) (i : SagaInstance S) (v : ℕ) (rows : List (SagaInstance S)) (m : StateStore S)
      → Fits f (StateCall.updates i v) rows
      → Agree rows m
      → Refined (table_call f (StateCall.updates i v) rows) (map_call (StateCall.updates i v) m)
  unfolding update
  update-Refined f i v rows m (is, it, h, c) a =
      let e = sym (a.same i.saga_name i.instance_id i.tenant_id is it) in
      let n = count-expects f i v rows (a.unique i.saga_name i.instance_id i.tenant_id) in
      elim (Option-cases (find i.saga_name i.instance_id i.tenant_id rows)) [
        | inl g ↦
            Refined-by _ _ _ _ refl (update-missing_map i v m (e ∙ g))
              (ap Seen.updated (n ∙ ap (has_version v) g), update-missing f i v rows m a g)
        | inr (row, g) ↦ Refined-by _ _ _ _ refl (update-row_map i row v m (e ∙ g)) (
          ap Seen.updated (n ∙ ap (has_version v) g),
          update-row f i row v rows m is it h (c row g) a g,
        )
      ]

  -- A call on the table is the call on the map: both show the same to the caller, and hold the
  -- same instances afterwards.
  call-Refined :
      (f : S → S) (c : StateCall S) (rows : List (SagaInstance S)) (m : StateStore S)
      → Fits f c rows
      → Agree rows m
      → Refined (table_call f c rows) (map_call c m)
  unfolding load Memory.load
  call-Refined f (StateCall.loads s n t) rows m (hs, ht) a =
      (ap Seen.loaded (a.same s n t hs ht), a)
  call-Refined f (StateCall.inserts i) rows m h a = insert-Refined f i rows m h a
  call-Refined f (StateCall.updates i v) rows m h a = update-Refined f i v rows m h a

  calls-Agree :
      (f : S → S) (cs : List (StateCall S)) (rows : List (SagaInstance S)) (m : StateStore S)
      → FitsAll f cs rows
      → Agree rows m
      → table_calls f cs rows ≡ map_calls cs m
  calls-Agree f [] rows m h a = refl
  calls-Agree f (c ∷ cs) rows m (h, hs) a =
      let (seen, next) = call-Refined f c rows m h a in
      ap (λ x. x ∷ table_calls f cs (table_call f c rows).1) seen
      ∙ ap (λ xs. (map_call c m).0 ∷ xs)
          (calls-Agree f cs (table_call f c rows).1 (map_call c m).1 hs next)

  -- Two new stores, the Postgres table and the in-memory map, show their caller the same at every
  -- call of a sequence of loads, inserts and updates: what is loaded, whether an insert fails and
  -- whether an update finds its version. The saga names and tenant ids have no colon, each state
  -- is read back from the column as it was, and each update has the time of creation of the row.
  pub table_calls-map_calls :
      (f : S → S) (cs : List (StateCall S))
      → FitsAll f cs []
      → table_calls f cs [] ≡ map_calls cs []
  unfolding find lookup
  table_calls-map_calls f cs h =
      calls-Agree f cs [] [] h record { unique = λ s n t. omega arith; same = λ s n t hs ht. refl }
