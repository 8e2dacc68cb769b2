-- ===== src/SagasPostgres/Tests.antt =====
-- Runs of packages/sagas-postgres at concrete data.
use eventfabric.Base.{
  ℕ, Bool, IsColonFree, order_by, distinct_on, str_eq, sym, ap, ◌∙◌, ◌≢◌, All-Memᴰ, ◌≡◌, ◌<◌, ◌≤◌,
  refl, Str, codes, true, false, none, some, List, [], ◌∷◌, arith, All, Memᴰ, Option, keep, length,
  map,
}
use eventfabric.Mediator.Command.{Command}
use eventfabric.Sagas.Saga.{SagaInstance, TimerMessage, active}
use eventfabric.Sagas.TimerStore.{TimerOwner, TimerStore}
use eventfabric.Sagas.TimerStore as Memory
use eventfabric.Sagas.TimerStore.Unique.{pending_count}
use eventfabric.SagasPostgres.TimerStore.{schedule, mark_fired}
use eventfabric.SagasPostgres.TimerStore.Rescheduled.{pending_rows_of, mark_fired-schedule}
use eventfabric.SagasPostgres.CommandQueue.{
  PgQueueRow, PgRowStatus, fair_by_tenant, fifo, candidates, claimed_rows, eligible, has_id,
}
use eventfabric.SagasPostgres.CommandQueue.Fair.{HasIds, claimed_rows-fair}
use eventfabric.SagasPostgres.StateStore.{
  load, find, insert_instance, update, update_where, has_key,
}
use eventfabric.SagasPostgres.StateStore.Calls.{StateCall, Seen, FitsAll, table_calls, map_calls}
use eventfabric.SagasPostgres.StateStore.Refines.{table_calls-map_calls}

abbrev owner : TimerOwner
owner = record { tenant_id = codes "acme"; saga_name = codes "order"; instance_id = codes "o1" }

abbrev reminder : TimerMessage ℕ
reminder = record { id = codes "t"; payload = 1 }

mark_fired-schedule_example :
    (pending_rows_of owner
        (codes "t")
        (mark_fired owner (codes "t") (schedule owner (codes "t") 50 reminder 20 []))
      ≡ 0)
    × (0
        < pending_count owner (codes "t") (
            Memory.mark_fired owner (codes "t") (Memory.schedule owner (codes "t") 50 reminder [])))
mark_fired-schedule_example = mark_fired-schedule owner (codes "t") 50 20 reminder [] []

abbrev pay : Command ℕ
pay = record {
  type = codes "pay";
  version = 1;
  payload = 7;
  metadata = record {
    command_id = codes "c1";
    idempotency_key = codes "k1";
    correlation_id = none;
    causation_id = none;
    issued_at = codes "now";
    tenant_id = none;
    principal_id = none;
  };
}

abbrev queued : ℕ → Str → PgQueueRow ℕ
queued id tenant = record {
  id = id;
  tenant_id = tenant;
  saga_name = codes "order";
  instance_id = codes "o1";
  command = pay;
  attempts = 0;
  status = PgRowStatus.pending;
  enqueued_at = id;
  claimed_at = none;
  next_attempt_at = none;
  last_error = none;
  causation_event_id = none;
}

-- One tenant has two rows before the row of the other one.
abbrev busy_tenant : List (PgQueueRow ℕ)
busy_tenant = queued 1 (codes "a") ∷ queued 2 (codes "a") ∷ queued 3 (codes "b") ∷ []

fair_batch :
    map (λ r. r.id) (claimed_rows fair_by_tenant (λ r. false) 10 2 busy_tenant) ≡ (1 ∷ 3 ∷ [])
unfolding claimed_rows candidates order_by distinct_on str_eq
fair_batch = refl

fifo_batch : map (λ r. r.id) (claimed_rows fifo (λ r. false) 10 2 busy_tenant) ≡ (1 ∷ 2 ∷ [])
unfolding claimed_rows order_by
fifo_batch = refl

HasIds-cons :
    (r : PgQueueRow ℕ) (rows : List (PgQueueRow ℕ))
    → All (λ q. r.id ≢ q.id) rows
    → HasIds rows
    → HasIds (r ∷ rows)
HasIds-cons r rows ne h x y (Memᴰ.head e) (Memᴰ.head d) same = e ∙ sym d
HasIds-cons r rows ne h x y (Memᴰ.head e) (Memᴰ.tail j) same =
    absurd (All-Memᴰ _ rows ne j (sym (ap (λ q. q.id) e) ∙ same))
HasIds-cons r rows ne h x y (Memᴰ.tail i) (Memᴰ.head d) same =
    absurd (All-Memᴰ _ rows ne i (sym (same ∙ ap (λ q. q.id) d)))
HasIds-cons r rows ne h x y (Memᴰ.tail i) (Memᴰ.tail j) same = h x y i j same

HasIds-none : HasIds {C = ℕ} []
HasIds-none r q i j same = elim i [ ]

busy_tenant-HasIds : HasIds busy_tenant
busy_tenant-HasIds =
    HasIds-cons _ _ (omega arith, (omega arith, tt))
      (HasIds-cons _ _ (omega arith, tt) (HasIds-cons _ _ tt HasIds-none))

abbrev free : PgQueueRow ℕ → Bool
free r = false

abbrev batch : List (PgQueueRow ℕ)
batch = claimed_rows fair_by_tenant free 10 2 busy_tenant

claimed_rows-fair_example :
    All (λ r. Memᴰ r busy_tenant × (eligible 10 r ≡ true) × (free r ≡ false)) batch
    × ((r q : PgQueueRow ℕ) → Memᴰ r batch → Memᴰ q batch → r.tenant_id ≡ q.tenant_id → r ≡ q)
    × (((r : PgQueueRow ℕ) → free r ≡ false)
        → length (keep (λ row. has_id (candidates 10 busy_tenant) row.id) busy_tenant) ≤ 2
        → (r : PgQueueRow ℕ) → Memᴰ r busy_tenant
        → eligible 10 r ≡ true
        → (q : PgQueueRow ℕ) × Memᴰ q batch × (q.tenant_id ≡ r.tenant_id) × (q.id ≤ r.id))
claimed_rows-fair_example = claimed_rows-fair free 10 2 busy_tenant busy_tenant-HasIds

abbrev instance_at : ℕ → SagaInstance ℕ
instance_at version = record {
  saga_name = codes "order";
  instance_id = codes "o1";
  tenant_id = codes "acme";
  state = version;
  state_version = version;
  status = active;
  schema_version = 1;
  last_event_pos = none;
  created_at = 5;
  updated_at = version;
}

-- An insert, one more of the same key, an update, one of a version that is gone, and a load.
abbrev state_calls : List (StateCall ℕ)
state_calls =
    StateCall.inserts (instance_at 1)
    ∷ StateCall.inserts (instance_at 1)
    ∷ StateCall.updates (instance_at 2) 1
    ∷ StateCall.updates (instance_at 3) 1
    ∷ StateCall.loads (codes "order") (codes "o1") (codes "acme")
    ∷ []

abbrev created : Option (SagaInstance ℕ) → ℕ
created none = 5
created (some row) = row.created_at

order_free : IsColonFree (codes "order")
order_free = omega arith

acme_free : IsColonFree (codes "acme")
acme_free = omega arith

state_calls_fit : FitsAll (λ s. s) state_calls []
unfolding find insert_instance update update_where has_key str_eq
state_calls_fit = (
  (order_free, acme_free, refl),
  (
    (order_free, acme_free, refl),
    (
      (order_free, acme_free, refl, λ row h. sym (ap created h)),
      ((order_free, acme_free, refl, λ row h. sym (ap created h)), ((order_free, acme_free), tt)),
    ),
  ),
)

table_calls-map_calls_example : table_calls (λ s. s) state_calls [] ≡ map_calls state_calls []
table_calls-map_calls_example = table_calls-map_calls (λ s. s) state_calls state_calls_fit

-- What the calls show.
seen_calls : table_calls (λ s. s) state_calls [] ≡ (
    Seen.inserted true
    ∷ Seen.inserted false
    ∷ Seen.updated true
    ∷ Seen.updated false
    ∷ Seen.loaded (some (instance_at 2))
    ∷ [])
unfolding load find insert_instance update update_where has_key str_eq
seen_calls = refl
