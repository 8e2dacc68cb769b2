-- ===== src/Mediator/Tests.antt =====
-- A bus with one handler, at concrete data.
use eventfabric.Base.{
  ℕ, ◌+◌, ◌*◌, ◌≡◌, ◌≢◌, insert, erase, refl, codes, true, none, some, [], ◌∷◌, arith, str_eq,
  lookup, includes, Result, ok, err, thrown, decimal,
}
use eventfabric.Mediator.Command.{Command}
use eventfabric.Mediator.Idempotency.{slot_key, claim, release}
use eventfabric.Mediator.Bus.{
  CommandBus, BusState, Surroundings, RegisteredHandler, IdempotencyMode, ConflictStrategy, gate,
  send, send_loop, attempt, run_chain,
}
use eventfabric.Core.Retry.{with_concurrency_retry}
use eventfabric.Mediator.Bus.Delivery.{Restores, slot_of, send-send, send_total, send_atomic}
use eventfabric.Sagas.CommandQueue.{QueueItem}
use eventfabric.Sagas.Dispatcher.{rewrite_command}
use eventfabric.Sagas.Dispatcher.ExactlyOnce.{send-rewrite_command}

abbrev pay : Command ℕ
pay = record {
  type = codes "pay";
  version = 1;
  payload = 30;
  metadata = record {
    command_id = codes "c1";
    idempotency_key = codes "k1";
    correlation_id = none;
    causation_id = none;
    issued_at = codes "now";
    tenant_id = some (codes "acme");
    principal_id = none;
  };
}

-- Adds the payload to a balance, and answers with the new balance.
abbrev adding : RegisteredHandler ℕ ℕ ℕ
adding = record {
  handle = λ command balance. (ok (balance + command.payload), balance + command.payload);
  idempotency = IdempotencyMode.required;
}

abbrev refusing : RegisteredHandler ℕ ℕ ℕ
refusing = record {
  handle = λ command balance. (err (thrown (codes "no")), 0);
  idempotency = IdempotencyMode.required;
}

abbrev bus_with : RegisteredHandler ℕ ℕ ℕ → CommandBus ℕ ℕ ℕ
bus_with handler = record {
  handlers = (codes "pay", handler) ∷ [];
  user_middleware = [];
  skip_for_command_types = [];
  conflict_strategy = ConflictStrategy.wait;
  in_flight_wait_ms = 5000;
  poll_interval_ms = 50;
  max_attempts = 3;
  require_tenant_id = true;
  tenant_validator = none;
}

abbrev quiet : Surroundings ℕ ℕ
quiet = record { elapsed = λ k. k * 50; others = λ k w. w }

abbrev rich : BusState ℕ ℕ
rich = record { slots = []; app = 100 }

send-send_example :
    (w' : BusState ℕ ℕ) × (send quiet 1 (bus_with adding) pay rich ≡ some (ok 130, w'))
    × (w'.app ≡ 130)
    × (send quiet 1 (bus_with adding) pay w' ≡ some (ok 130, w'))
unfolding gate lookup str_eq includes
send-send_example =
    send-send (bus_with adding) refl quiet quiet 0 0 pay pay adding adding rich 130 130 refl refl
      refl refl refl refl refl

-- 100 sleeps of 50 milliseconds are the 5000 of the waiting time.
send_total_example :
    (s : Result ℕ × BusState ℕ ℕ) × (send quiet 101 (bus_with adding) pay rich ≡ some s)
send_total_example =
    send_total (bus_with adding) quiet 100 pay rich (omega arith) (λ j. omega arith)

send_atomic_example : Restores rich rich
unfolding send gate send_loop attempt run_chain with_concurrency_retry lookup str_eq includes
    slot_key claim release insert erase
send_atomic_example =
    send_atomic (bus_with refusing) quiet refl 1 pay rich rich (thrown (codes "no")) (λ j v. refl)
      refl

abbrev pay_row : QueueItem ℕ
pay_row = record {
  id = decimal 4;
  tenant_id = codes "acme";
  saga_name = codes "order";
  instance_id = codes "o1";
  command = pay;
  attempts = 1;
  causation_event_id = none;
}

-- Another command of the same instance, which the saga gave the same key.
abbrev second_row : QueueItem ℕ
second_row = record pay_row { id = decimal 5 }

send-rewrite_command_example :
    (w' : BusState ℕ ℕ) × (send quiet 1 (bus_with adding) (rewrite_command pay_row) rich
      ≡ some (ok 130, w'))
    × (w'.app ≡ 130)
    × (decimal 5 ≡ decimal 4
        → send quiet 1 (bus_with adding) (rewrite_command second_row) w' ≡ some (ok 130, w'))
    × ((r' a' : ℕ)
        → decimal 5 ≢ decimal 4
        → lookup (slot_of (rewrite_command second_row)) rich.slots ≡ none
        → adding.handle (rewrite_command second_row) 130 ≡ (ok r', a')
        → (w'' : BusState ℕ ℕ) × (send quiet 1 (bus_with adding) (rewrite_command second_row) w'
            ≡ some (ok r', w''))
          × (w''.app ≡ a'))
unfolding gate rewrite_command lookup str_eq includes
send-rewrite_command_example =
    send-rewrite_command (bus_with adding) quiet quiet 0 0 pay_row second_row adding adding rich 130
      130 refl (refl, refl, refl) refl refl refl refl refl refl
