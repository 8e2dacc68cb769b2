-- ===== src/Sagas/TimerStore.antt =====
-- packages/sagas/src/in-memory-saga-timer-store.ts. Dates are milliseconds.
pub mod Due
pub mod Unique
use eventfabric.Base.{
  ℕ, suc, zero, ◌+◌, Str, Bool, true, false, ◌&&◌, ◌||◌, not, Option, none, some, List, [], ◌∷◌,
  map, ◌++◌, str_eq, ltb, leb, if◌then◌else◌, keep, length, includes, ◌==◌, take, sort_by,
}
use eventfabric.Sagas.Saga.{TimerMessage}

pub data TimerStatus : Type 0 where
  pending claimed fired cancelled : TimerStatus

abbrev pub is_pending : TimerStatus → Bool
is_pending pending = true
is_pending _ = false

abbrev pub is_claimed : TimerStatus → Bool
is_claimed claimed = true
is_claimed _ = false

-- The saga instance whose timers a call addresses.
pub record TimerOwner : Type 0 where
  pub tenant_id : Str
  pub saga_name : Str
  pub instance_id : Str

module _ (M : Type 0) where
  -- `Row`
  pub record TimerRow : Type 0 where
    pub tenant_id : Str
    pub saga_name : Str
    pub instance_id : Str
    pub id : Str
    pub fire_at : ℕ
    pub message : TimerMessage M
    pub status : TimerStatus

  -- `SagaTimerStoreItem`
  pub record TimerItem : Type 0 where
    pub tenant_id : Str
    pub saga_name : Str
    pub instance_id : Str
    pub id : Str
    pub fire_at : ℕ
    pub message : TimerMessage M

  -- The `rows` of `InMemorySagaTimerStore`.
  abbrev pub TimerStore : Type 0
  TimerStore = List TimerRow

module _ {M : Type 0} where
  -- `match`: the id is compared only where the caller gives one.
  unfoldable pub matches : TimerRow M → TimerOwner → Option Str → Bool
  matches row owner id =
      str_eq row.tenant_id owner.tenant_id
      && (str_eq row.saga_name owner.saga_name
          && (str_eq row.instance_id owner.instance_id
              && elim id [ none ↦ true | some i ↦ str_eq row.id i ]))

  abbrev pub new_row : TimerOwner → Str → ℕ → TimerMessage M → TimerRow M
  new_row owner id fire_at message = record {
    tenant_id = owner.tenant_id;
    saga_name = owner.saga_name;
    instance_id = owner.instance_id;
    id = id;
    fire_at = fire_at;
    message = message;
    status = pending;
  }

  -- The first pending row with the key gets the new date and message; with none, a row is added.
  unfoldable pub schedule : TimerOwner → Str → ℕ → TimerMessage M → TimerStore M → TimerStore M
  schedule owner id fire_at message [] = new_row owner id fire_at message ∷ []
  schedule owner id fire_at message (row ∷ rows) =
      if matches row owner (some id) && is_pending row.status
      then record row { fire_at = fire_at; message = message } ∷ rows
      else row ∷ schedule owner id fire_at message rows

  -- The three guards of `cancel`.
  abbrev pub cancellable : TimerOwner → List Str → TimerRow M → Bool
  cancellable owner ids row =
      (is_pending row.status || is_claimed row.status)
      && (matches row owner none && includes ids row.id)

  unfoldable pub cancel : TimerOwner → List Str → TimerStore M → TimerStore M × ℕ
  cancel owner ids [] = ([], 0)
  cancel owner ids (row ∷ rows) =
      let rest = cancel owner ids rows in
      if cancellable owner ids row
      then (record row { status = cancelled } ∷ rest.0, suc rest.1)
      else (row ∷ rest.0, rest.1)

  -- `find` of a claimed row with the key, and a write through the result.
  unfoldable pub set_claimed : TimerOwner → Str → TimerStatus → TimerStore M → TimerStore M
  set_claimed owner id status [] = []
  set_claimed owner id status (row ∷ rows) =
      if matches row owner (some id) && is_claimed row.status
      then record row { status = status } ∷ rows
      else row ∷ set_claimed owner id status rows

  unfoldable pub mark_fired : TimerOwner → Str → TimerStore M → TimerStore M
  mark_fired owner id = set_claimed owner id fired

  unfoldable pub release : TimerOwner → Str → TimerStore M → TimerStore M
  release owner id = set_claimed owner id pending

  -- The rows with their positions, from `k` on: what `claimDue` sorts shares the stored rows.
  unfoldable pub indexed : ℕ → List (TimerRow M) → List (ℕ × TimerRow M)
  indexed k [] = []
  indexed k (row ∷ rows) = (k, row) ∷ indexed (suc k) rows

  unfoldable pub has_index : ℕ → List (ℕ × TimerRow M) → Bool
  has_index k [] = false
  has_index k ((j, row) ∷ chosen) = if j == k then true else has_index k chosen

  -- Writes `claimed` through the chosen positions.
  unfoldable pub mark_claimed : ℕ → List (ℕ × TimerRow M) → List (TimerRow M) → List (TimerRow M)
  mark_claimed k chosen [] = []
  mark_claimed k chosen (row ∷ rows) =
      (if has_index k chosen then record row { status = claimed } else row)
      ∷ mark_claimed (suc k) chosen rows

  abbrev pub is_due : ℕ → ℕ × TimerRow M → Bool
  is_due now (k, row) = is_pending row.status && leb row.fire_at now

  abbrev pub item_of : ℕ × TimerRow M → TimerItem M
  item_of (k, row) = record {
    tenant_id = row.tenant_id;
    saga_name = row.saga_name;
    instance_id = row.instance_id;
    id = row.id;
    fire_at = row.fire_at;
    message = row.message;
  }

  -- The rows that `claimDue` takes: the due ones by date, up to the batch size.
  unfoldable pub due_rows : ℕ → ℕ → TimerStore M → List (ℕ × TimerRow M)
  due_rows now batch_size rows =
      take batch_size (sort_by (λ p. p.1.fire_at) (keep (is_due now) (indexed 0 rows)))

  unfoldable pub claim_due : ℕ → ℕ → TimerStore M → TimerStore M × List (TimerItem M)
  claim_due now batch_size rows =
      let chosen = due_rows now batch_size rows in (mark_claimed 0 chosen rows, map item_of chosen)

  pub pending_timers : TimerStore M → List (TimerRow M)
  pending_timers = keep (λ row. is_pending row.status)
