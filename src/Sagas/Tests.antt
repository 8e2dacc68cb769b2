-- ===== src/Sagas/Tests.antt =====
-- One saga at concrete data: an order that queues a command and a timer for every event.
use eventfabric.Base.{
  ℕ, suc, ◌≤◌, ◌≡◌, refl, Str, codes, true, false, none, some, [], ◌∷◌, arith, str_eq, lookup,
  insert, decimal, Result, ok, err, thrown,
}
use eventfabric.Core.Types.{EventEnvelope}
use eventfabric.Mediator.Command.{Command, CommandMetadata}
use eventfabric.Sagas.Saga.{
  Saga, SagaInstance, SagaReaction, SagaInstanceStatus, TimerMessage, FireAt,
}
use eventfabric.Sagas.StateStore.{key, key_of, load, insert_instance, update}
use eventfabric.Sagas.StateStore.Laws.{insert-IsKeyed}
use eventfabric.Sagas.CommandQueue.{CommandQueue, QueueItem, empty_queue, enqueue}
use eventfabric.Sagas.TimerStore.{TimerRow, TimerItem, TimerOwner, claimed, new_row}
use eventfabric.Sagas.TimerStore.Unique.{IsUnique, after_call, after_call-IsUnique, schedules}
use eventfabric.Sagas.Runner.{
  event, SagaStores, applied, skipped, SkipReason, apply_saga_transition,
}
use eventfabric.Sagas.Runner.Transition.{Post, apply_saga_transition-Post}
use eventfabric.Sagas.Runner.Redelivery.{applied-skipped}
use eventfabric.Sagas.Dispatcher.{dispatcher_options, run_once}
use eventfabric.Sagas.Scheduler.{SchedulerOptions, OrphanPolicy, deliver}
use eventfabric.Sagas.Scheduler
use eventfabric.Sagas.Scheduler.Deliveries.{Delivers, deliver-Delivers}
use eventfabric.Sagas.Scheduler.Rounds.{Accounts, run_once-Accounts}
use eventfabric.Sagas.Dispatcher.Outcome.{run_once-counts}

abbrev text : Str
text = codes "order"

abbrev metadata : CommandMetadata
metadata = record {
  command_id = codes "c1";
  idempotency_key = codes "k1";
  correlation_id = none;
  causation_id = none;
  issued_at = codes "now";
  tenant_id = none;
  principal_id = none;
}

abbrev reserve : Command ℕ
reserve = record { type = codes "reserve"; version = 1; payload = 7; metadata = metadata }

abbrev reminder : TimerMessage ℕ
reminder = record { id = codes "t"; payload = 1 }

abbrev reaction_to : ℕ → SagaReaction ℕ ℕ ℕ
reaction_to s = record {
  new_state = suc s;
  commands = some (reserve ∷ []);
  schedule =
      some (record { id = codes "t"; fire_at = FireAt.after_ms 10; message = reminder } ∷ []);
  cancel = none;
  end = false;
}

abbrev order_saga : Saga ℕ ℕ ℕ ℕ
order_saga = record {
  name = text;
  version = 1;
  upcaster = none;
  correlate = λ envelope. some envelope.aggregate_id;
  starts_new_instance = λ envelope. true;
  initial_state = λ envelope. 0;
  react_to_event = λ s envelope context. ok (reaction_to s);
  react_to_timer = none;
}

abbrev placed : EventEnvelope ℕ
placed = record {
  event_id = codes "e1";
  tenant_id = codes "acme";
  aggregate_name = text;
  aggregate_id = codes "o1";
  aggregate_version = 1;
  global_position = 5;
  occurred_at = 0;
  payload = record { type = codes "Placed"; version = 1; body = 3 };
  dismissed = none;
  correlation_id = none;
  causation_id = none;
}

abbrev no_stores : SagaStores ℕ ℕ ℕ
no_stores = record { instances = []; queue = record { rows = []; next_id = 1 }; timers = [] }

abbrev instance_after : SagaInstance ℕ
instance_after = record {
  saga_name = text;
  instance_id = codes "o1";
  tenant_id = codes "acme";
  state = 1;
  state_version = 1;
  status = SagaInstanceStatus.active;
  schema_version = 1;
  last_event_pos = some 5;
  created_at = 100;
  updated_at = 100;
}

abbrev owner : TimerOwner
owner = record { tenant_id = codes "acme"; saga_name = text; instance_id = codes "o1" }

abbrev stores_after : SagaStores ℕ ℕ ℕ
stores_after = (apply_saga_transition order_saga (codes "acme") 100 (event placed) no_stores).1

first_delivery :
    apply_saga_transition order_saga (codes "acme") 100 (event placed) no_stores
    ≡ (ok (applied instance_after (reaction_to 0)), stores_after)
unfolding apply_saga_transition load insert_instance update lookup insert key str_eq
first_delivery = refl

-- The same event again, 50 ms later.
applied-skipped_example :
    (reason : SkipReason) × (apply_saga_transition order_saga
        (codes "acme")
        150
        (event placed)
        stores_after
      ≡ (ok (skipped reason), stores_after))
applied-skipped_example =
    applied-skipped order_saga (codes "acme") 100 150 placed no_stores stores_after instance_after
      (reaction_to 0) tt first_delivery

apply_saga_transition-Post_example :
    Post order_saga
      (codes "acme")
      100
      (event placed)
      no_stores
      (apply_saga_transition order_saga (codes "acme") 100 (event placed) no_stores)
apply_saga_transition-Post_example =
    apply_saga_transition-Post order_saga (codes "acme") 100 (event placed) no_stores tt

abbrev row_item : QueueItem ℕ
row_item = record {
  id = decimal 1;
  tenant_id = codes "acme";
  saga_name = text;
  instance_id = codes "o1";
  command = reserve;
  attempts = 1;
  causation_event_id = some (codes "e1");
}

abbrev two_rows : CommandQueue ℕ
two_rows =
    enqueue (codes "acme") text (codes "o2") reserve none 20
      (enqueue (codes "acme") text (codes "o1") reserve (some (codes "e1")) 10 empty_queue)

abbrev due_timer : TimerRow ℕ
due_timer = new_row owner (codes "t") 110 reminder

after_call-IsUnique_example : IsUnique (after_call [] (schedules owner (codes "t") 110 reminder))
after_call-IsUnique_example =
    after_call-IsUnique [] (schedules owner (codes "t") 110 reminder) tt (λ o id. omega arith)

abbrev seeded : SagaInstance ℕ
seeded = record instance_after { state_version = 0 }

-- A bus that rejects every command.
abbrev rejecting : Command ℕ → ℕ → Result ℕ × ℕ
rejecting command calls = (err (thrown (codes "no")), suc calls)

run_once-counts_example :
    (run_once (dispatcher_options none none none) rejecting 30 two_rows 0).1.claimed ≤ 32
run_once-counts_example =
    (run_once-counts (dispatcher_options none none none) rejecting 30 two_rows 0).1

abbrev options : SchedulerOptions ℕ
options = record { batch_size = 32; on_orphaned_timer = OrphanPolicy.fail; mark_failed = none }

abbrev order_timer : TimerItem ℕ
order_timer = record {
  tenant_id = codes "acme";
  saga_name = text;
  instance_id = codes "o1";
  id = codes "t";
  fire_at = 110;
  message = reminder;
}

-- The timer is claimed, and its instance is stored.
abbrev claimed_stores : SagaStores ℕ ℕ ℕ
claimed_stores = record no_stores {
  instances = insert (key_of instance_after) instance_after [];
  timers = record due_timer { status = claimed } ∷ [];
}

deliver-Delivers_example :
    Delivers options
      ((text, order_saga) ∷ [])
      120
      order_saga
      order_timer
      claimed_stores
      (deliver options ((text, order_saga) ∷ []) 120 order_saga order_timer claimed_stores)
deliver-Delivers_example =
    deliver-Delivers options ((text, order_saga) ∷ []) 120 order_saga order_timer claimed_stores
      (insert-IsKeyed instance_after [] tt)

abbrev waiting : SagaStores ℕ ℕ ℕ
waiting = record no_stores { timers = due_timer ∷ [] }

run_once-Accounts_example :
    Accounts options
      ((text, order_saga) ∷ [])
      120
      (Scheduler.run_once options ((text, order_saga) ∷ []) 120 waiting)
run_once-Accounts_example = run_once-Accounts options ((text, order_saga) ∷ []) 120 waiting tt
