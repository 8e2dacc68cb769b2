-- ===== src/Sagas/Runner/Effects.antt =====
-- What the effects of a reaction, `persistEffects` of packages/sagas/src/saga-runner.ts, leave in
-- the command queue and among the pending timers.
pub mod Persisted
use eventfabric.Base.{
  ℕ, suc, ◌≡◌, refl, sym, ap, ◌∙◌, Str, Bool, true, false, ◌&&◌, Option, none, some, List, [], ◌∷◌,
  ◌++◌, map, or_else, arith, if◌then◌else◌, str_eq, str_eq→eq, str_eq_refl, keep, includes, decimal,
  Bool-cases, inl, inr,
}
use eventfabric.Mediator.Command.{Command}
use eventfabric.Sagas.Saga.{Saga, SagaReaction, ScheduledMessage, TimerMessage}
use eventfabric.Sagas.CommandQueue.{Row, CommandQueue, pending, enqueue}
use eventfabric.Sagas.TimerStore.{
  TimerRow, TimerStore, TimerOwner, is_pending, new_row, matches, schedule, cancel,
}
use eventfabric.Sagas.Runner.{
  SagaDelivery, SagaStores, enqueue_all, schedule_all, cancel_listed, fire_time, owner,
  persist_effects, causation_event_id,
}

-- The rows of a list of commands, numbered from `k` on.
unfoldable pub queued_rows :
    {C : Type 0} → Str → Str → Str → Option Str → ℕ → ℕ → List (Command C) → List (Row C)
queued_rows tenant_id saga_name instance_id cause now k [] = []
queued_rows tenant_id saga_name instance_id cause now k (command ∷ commands) =
    record {
      id = decimal k;
      tenant_id = tenant_id;
      saga_name = saga_name;
      instance_id = instance_id;
      command = command;
      attempts = 0;
      status = pending;
      enqueued_at = now;
      last_error = none;
      causation_event_id = cause;
      next_attempt_at = none;
    }
    ∷ queued_rows tenant_id saga_name instance_id cause now (suc k) commands

abbrev pub is_owner : TimerOwner → TimerOwner → Bool
is_owner o o' =
    str_eq o.tenant_id o'.tenant_id
    && (str_eq o.saga_name o'.saga_name && str_eq o.instance_id o'.instance_id)

module _ {M : Type 0} where
  -- The dates and messages of the pending timers that an instance has under an id.
  abbrev pub pending_at : TimerOwner → Str → TimerStore M → List (ℕ × TimerMessage M)
  pending_at o id rows =
      map (λ row. (row.fire_at, row.message))
        (keep (λ row. matches row o (some id) && is_pending row.status) rows)

  -- The last of the messages to schedule under an id.
  unfoldable pub latest : ℕ → Str → List (ScheduledMessage M) → Option (ℕ × TimerMessage M)
  latest now id [] = none
  latest now id (s ∷ ss) = elim (latest now id ss) [
    | some later ↦ some later
    | none ↦ if str_eq s.id id then some (fire_time now s.fire_at, s.message) else none
  ]

-- A list with a new first element, where there is one.
unfoldable pub with_first : {A : Type 0} → Option A → List A → List A
with_first none xs = xs
with_first (some x) [] = x ∷ []
with_first (some x) (y ∷ ys) = x ∷ ys

pub append_none : {A : Type 0} (xs : List A) → xs ++ [] ≡ xs
append_none [] = refl
append_none (x ∷ xs) = ap (λ l. x ∷ l) (append_none xs)

pub append_one :
    {A : Type 0} (xs : List A) (x : A) (ys : List A) → (xs ++ x ∷ []) ++ ys ≡ xs ++ x ∷ ys
append_one [] x ys = refl
append_one (z ∷ xs) x ys = ap (λ l. z ∷ l) (append_one xs x ys)

pub with_first_twice :
    {A : Type 0} (later : Option A) (x : A) (l : List A)
    → with_first later (with_first (some x) l)
      ≡ with_first (elim later [ some y ↦ some y | none ↦ some x ]) l
unfolding with_first
with_first_twice none x l = refl
with_first_twice (some y) x [] = refl
with_first_twice (some y) x (z ∷ l) = refl

str_eq_sym : (s t : Str) → str_eq s t ≡ str_eq t s
str_eq_sym s t = elim (Bool-cases (str_eq s t)) [
  | inl e ↦ rw (str_eq→eq s t e) refl
  | inr n ↦ elim (Bool-cases (str_eq t s)) [
    | inl e ↦ rw (str_eq→eq t s e) refl
    | inr m ↦ rw (n, m) refl
  ]
]

pub is_owner→eq : (o o' : TimerOwner) → is_owner o o' ≡ true → o ≡ o'
is_owner→eq o o' h = ground (
  arith,
  str_eq→eq o.tenant_id o'.tenant_id,
  str_eq→eq o.saga_name o'.saga_name,
  str_eq→eq o.instance_id o'.instance_id,
)

module _ {M : Type 0} where
  -- A row that answers to two owners and ids shows that they are the same.
  matches_other :
      (row : TimerRow M) (o o' : TimerOwner) (id id' : Str)
      → (is_owner o o' && str_eq id id') ≡ false
      → matches row o (some id) ≡ true
      → matches row o' (some id') ≡ false
  unfolding matches
  matches_other row o o' id id' h m = ground (
    arith,
    str_eq→eq row.tenant_id o.tenant_id,
    str_eq→eq row.saga_name o.saga_name,
    str_eq→eq row.instance_id o.instance_id,
    str_eq→eq row.id id,
  )

  new_row_self :
      (o : TimerOwner) (id : Str) (at : ℕ) (m : TimerMessage M)
      → matches (new_row o id at m) o (some id) ≡ true
  unfolding matches
  new_row_self o id at m = ground (
    arith,
    str_eq_refl o.tenant_id,
    str_eq_refl o.saga_name,
    str_eq_refl o.instance_id,
    str_eq_refl id,
  )

  matches_moved :
      (row : TimerRow M) (at : ℕ) (m : TimerMessage M) (o : TimerOwner) (id : Str)
      → matches (record row { fire_at = at; message = m }) o (some id) ≡ matches row o (some id)
  unfolding matches
  matches_moved row at m o id = refl

  pub schedule-pending_self :
      (o : TimerOwner) (id : Str) (at : ℕ) (m : TimerMessage M) (rows : TimerStore M)
      → pending_at o id (schedule o id at m rows) ≡ with_first (some (at, m)) (pending_at o id rows)
  unfolding schedule with_first matches
  schedule-pending_self o id at m [] = ground (arith, new_row_self o id at m)
  schedule-pending_self o id at m (row ∷ rows) =
      ground (arith, schedule-pending_self o id at m rows)

  pub schedule-pending_other :
      (o o' : TimerOwner) (id id' : Str) (at : ℕ) (m : TimerMessage M) (rows : TimerStore M)
      → (is_owner o o' && str_eq id id') ≡ false
      → pending_at o' id' (schedule o id at m rows) ≡ pending_at o' id' rows
  unfolding schedule
  schedule-pending_other o o' id id' at m [] h =
      ground (arith, matches_other (new_row o id at m) o o' id id' h (new_row_self o id at m))
  schedule-pending_other o o' id id' at m (row ∷ rows) h =
      elim (Bool-cases (matches row o (some id))) [
        | inl own ↦ ground (
          arith,
          matches_other row o o' id id' h own,
          matches_moved row at m o' id',
          schedule-pending_other o o' id id' at m rows h,
        )
        | inr off ↦ ground (arith, schedule-pending_other o o' id id' at m rows h)
      ]

  cancel_hits :
      (row : TimerRow M) (o o' : TimerOwner) (ids : List Str) (id : Str)
      → matches row o' (some id) ≡ true
      → (matches row o none && includes ids row.id) ≡ (is_owner o o' && includes ids id)
  unfolding matches
  cancel_hits row o o' ids id own = ground (
    arith,
    str_eq→eq row.tenant_id o'.tenant_id,
    str_eq→eq row.saga_name o'.saga_name,
    str_eq→eq row.instance_id o'.instance_id,
    str_eq→eq row.id id,
    str_eq_sym o.tenant_id o'.tenant_id,
    str_eq_sym o.saga_name o'.saga_name,
    str_eq_sym o.instance_id o'.instance_id,
  )

  pub cancel-pending :
      (o o' : TimerOwner) (ids : List Str) (id : Str) (rows : TimerStore M)
      → pending_at o' id (cancel o ids rows).0
        ≡ (if is_owner o o' && includes ids id then [] else pending_at o' id rows)
  unfolding cancel
  cancel-pending o o' ids id [] = ground arith
  cancel-pending o o' ids id (row ∷ rows) = elim (Bool-cases (matches row o' (some id))) [
    | inl own ↦ ground (arith, cancel-pending o o' ids id rows, cancel_hits row o o' ids id own)
    | inr off ↦ ground (arith, cancel-pending o o' ids id rows)
  ]
