-- ===== src/SagasPostgres/StateStore/Calls.antt =====
-- The calls of the interface SagaStateStore, on the table of
-- packages/sagas-postgres/src/pg-saga-state-store.ts and on the map of
-- packages/sagas/src/in-memory-saga-state-store.ts.
use eventfabric.Base.{
  ℕ, ◌==◌, ◌≡◌, Str, Bool, true, false, Option, none, some, List, [], ◌∷◌, ◌++◌, arith,
  if◌then◌else◌, lookup, insert, IsColonFree, ok, err, Result,
}
use eventfabric.Sagas.Saga.{SagaInstance}
use eventfabric.Sagas.StateStore as Memory
use eventfabric.Sagas.StateStore.{StateStore, key, key_of}
use eventfabric.SagasPostgres.StateStore.{find, load, insert_instance, update, stored}

module _ (S : Type 0) where
  -- One call of the interface SagaStateStore.
  pub data StateCall : Type 0 where
    loads : Str → Str → Str → StateCall
    inserts : SagaInstance S → StateCall
    updates : SagaInstance S → ℕ → StateCall

  -- What the caller sees of it: an error by there being one.
  pub data Seen : Type 0 where
    loaded : Option (SagaInstance S) → Seen
    inserted : Bool → Seen
    updated : Bool → Seen
    broken : Seen

module _ {S : Type 0} where
  abbrev seen_load : Result (Option (SagaInstance S)) → Seen S
  seen_load (ok i) = Seen.loaded i
  seen_load (err e) = Seen.broken

  abbrev seen_insert : Result (Unit {0}) → Seen S
  seen_insert (ok _) = Seen.inserted true
  seen_insert (err e) = Seen.inserted false

  abbrev seen_update : Result Bool → Seen S
  seen_update (ok b) = Seen.updated b
  seen_update (err e) = Seen.broken

  -- The calls on the table and on the map.
  abbrev pub table_call :
      (S → S) → StateCall S → List (SagaInstance S) → Seen S × List (SagaInstance S)
  table_call f (StateCall.loads s n t) rows = (seen_load (load s n t rows).0, (load s n t rows).1)
  table_call f (StateCall.inserts i) rows =
      (seen_insert (insert_instance f i rows).0, (insert_instance f i rows).1)
  table_call f (StateCall.updates i v) rows =
      (seen_update (update f i v rows).0, (update f i v rows).1)

  abbrev pub map_call : StateCall S → StateStore S → Seen S × StateStore S
  map_call (StateCall.loads s n t) m = (seen_load (Memory.load s n t m).0, (Memory.load s n t m).1)
  map_call (StateCall.inserts i) m =
      (seen_insert (Memory.insert_instance i m).0, (Memory.insert_instance i m).1)
  map_call (StateCall.updates i v) m =
      (seen_update (Memory.update i v m).0, (Memory.update i v m).1)

  -- What is asked of a call on the table: names without colons, a state that is read back as it
  -- was, and an update by an instance with the time of creation that is stored.
  abbrev pub Fits : (S → S) → StateCall S → List (SagaInstance S) → Type 0
  Fits f (StateCall.loads s n t) rows = IsColonFree s × IsColonFree t
  Fits f (StateCall.inserts i) rows =
      IsColonFree i.saga_name × IsColonFree i.tenant_id × (f i.state ≡ i.state)
  Fits f (StateCall.updates i v) rows =
      IsColonFree i.saga_name
      × IsColonFree i.tenant_id
      × (f i.state ≡ i.state)
      × ((row : SagaInstance S)
          → find i.saga_name i.instance_id i.tenant_id rows ≡ some row
          → row.created_at ≡ i.created_at)

  -- The map behind an update: the instance is put in its place where the version is the expected.
  abbrev pub updated_map : SagaInstance S → SagaInstance S → ℕ → StateStore S → StateStore S
  updated_map i row v m = if row.state_version == v then insert (key_of i) i m else m

  pub insert_instance-new :
      (f : S → S) (i : SagaInstance S) (rows : List (SagaInstance S))
      → find i.saga_name i.instance_id i.tenant_id rows ≡ none
      → table_call f (StateCall.inserts i) rows ≡ (Seen.inserted true, rows ++ stored f i ∷ [])
  unfolding insert_instance
  insert_instance-new f i rows g = ground arith

  pub insert_instance-taken :
      (f : S → S) (i row : SagaInstance S) (rows : List (SagaInstance S))
      → find i.saga_name i.instance_id i.tenant_id rows ≡ some row
      → table_call f (StateCall.inserts i) rows ≡ (Seen.inserted false, rows)
  unfolding insert_instance
  insert_instance-taken f i row rows g = ground arith

  pub insert_instance-new_map :
      (i : SagaInstance S) (m : StateStore S)
      → lookup (key_of i) m ≡ none
      → map_call (StateCall.inserts i) m ≡ (Seen.inserted true, insert (key_of i) i m)
  unfolding Memory.insert_instance
  insert_instance-new_map i m g = ground arith

  pub insert_instance-taken_map :
      (i row : SagaInstance S) (m : StateStore S)
      → lookup (key_of i) m ≡ some row
      → map_call (StateCall.inserts i) m ≡ (Seen.inserted false, m)
  unfolding Memory.insert_instance
  insert_instance-taken_map i row m g = ground arith

  pub update-missing_map :
      (i : SagaInstance S) (v : ℕ) (m : StateStore S)
      → lookup (key_of i) m ≡ none
      → map_call (StateCall.updates i v) m ≡ (Seen.updated false, m)
  unfolding Memory.update
  update-missing_map i v m g = ground arith

  pub update-row_map :
      (i row : SagaInstance S) (v : ℕ) (m : StateStore S)
      → lookup (key_of i) m ≡ some row
      → map_call (StateCall.updates i v) m
        ≡ (Seen.updated (row.state_version == v), updated_map i row v m)
  unfolding Memory.update
  update-row_map i row v m g = ground arith

  -- A sequence of calls, with what each shows.
  abbrev pub table_calls : (S → S) → List (StateCall S) → List (SagaInstance S) → List (Seen S)
  table_calls f [] rows = []
  table_calls f (c ∷ cs) rows = (table_call f c rows).0 ∷ table_calls f cs (table_call f c rows).1

  abbrev pub map_calls : List (StateCall S) → StateStore S → List (Seen S)
  map_calls [] m = []
  map_calls (c ∷ cs) m = (map_call c m).0 ∷ map_calls cs (map_call c m).1

  -- Each call fits the rows it finds.
  abbrev pub FitsAll : (S → S) → List (StateCall S) → List (SagaInstance S) → Type 0
  FitsAll f [] rows = Unit {0}
  FitsAll f (c ∷ cs) rows = Fits f c rows × FitsAll f cs (table_call f c rows).1
