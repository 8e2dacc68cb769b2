-- ===== src/Sagas/StateStore.antt =====
-- packages/sagas/src/in-memory-saga-state-store.ts. `structuredClone` is the identity on values.
pub mod Laws
use eventfabric.Base.{
  ℕ, Str, Bool, true, false, Option, none, some, List, map, ◌++◌, codes, Dict, lookup, insert, ◌==◌,
  if◌then◌else◌, Action, Result, ok, err, Error, thrown,
}
use eventfabric.Sagas.Saga.{SagaInstance}

-- `${tenantId}::${sagaName}::${instanceId}`
unfoldable pub key : Str → Str → Str → Str
key saga_name instance_id tenant_id =
    tenant_id ++ (codes "::" ++ (saga_name ++ (codes "::" ++ instance_id)))

-- The `instances` map of `InMemorySagaStateStore`.
abbrev pub StateStore : Type 0 → Type 0
StateStore S = Dict (SagaInstance S)

already_exists : Str → Str → Str → Error
already_exists saga_name instance_id tenant_id = thrown (
    codes "Saga instance "
    ++ (saga_name
        ++ (codes ":"
            ++ (instance_id ++ (codes " (tenant " ++ (tenant_id ++ codes ") already exists"))))))

module _ {S : Type 0} where
  -- The key under which an instance is stored.
  abbrev pub key_of : SagaInstance S → Str
  key_of i = key i.saga_name i.instance_id i.tenant_id

  unfoldable pub load : Str → Str → Str → Action (StateStore S) (Option (SagaInstance S))
  load saga_name instance_id tenant_id store =
      (ok (lookup (key saga_name instance_id tenant_id) store), store)

  unfoldable pub insert_instance : SagaInstance S → Action (StateStore S) (Unit {0})
  unfolding already_exists
  insert_instance instance store = elim (lookup (key_of instance) store) [
    | some _ ↦
        (err (already_exists instance.saga_name instance.instance_id instance.tenant_id), store)
    | none ↦ (ok tt, insert (key_of instance) instance store)
  ]

  -- Optimistic concurrency: `false` when the stored version is not the expected one.
  unfoldable pub update : SagaInstance S → ℕ → Action (StateStore S) Bool
  update instance expected_version store = elim (lookup (key_of instance) store) [
    | none ↦ (ok false, store)
    | some current ↦
        if current.state_version == expected_version
        then (ok true, insert (key_of instance) instance store)
        else (ok false, store)
  ]
