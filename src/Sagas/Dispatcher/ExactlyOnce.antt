-- ===== src/Sagas/Dispatcher/ExactlyOnce.antt =====
-- The dispatcher over the command bus: a worker that crashed between the bus's commit and the
-- acknowledgement leaves a row that is dispatched again.
use eventfabric.Base.{
  ℕ, suc, ◌≡◌, ◌≢◌, refl, sym, Str, codes, false, some, none, includes, lookup, [], ok, arith,
  lookup-insert, lookup-insert_self, insert, str_eq→eq,
}
use mathlib.Core.List.{append_cancel_left}
use eventfabric.Mediator.Idempotency.{completed, in_flight, slot_key}
use eventfabric.Mediator.Bus.{CommandBus, BusState, Surroundings, RegisteredHandler, gate, send}
use eventfabric.Mediator.Bus.Delivery.{slot_of, send_new, send_repeated, handled_state}
use eventfabric.Sagas.CommandQueue.{QueueItem}
use eventfabric.Sagas.Dispatcher.{rewrite_command, dispatch_key}

-- Two rows of one instance of a saga.
abbrev pub SameInstance : {C : Type 0} → QueueItem C → QueueItem C → Type 0
SameInstance row other =
    (other.tenant_id ≡ row.tenant_id)
    × (other.saga_name ≡ row.saga_name)
    × (other.instance_id ≡ row.instance_id)

key_cancel :
    (t s i a b : Str)
    → slot_key (some t) (dispatch_key s i a) ≡ slot_key (some t) (dispatch_key s i b)
    → a ≡ b
unfolding slot_key dispatch_key
key_cancel t s i a b h = append_cancel_left (codes ":") a b (
    append_cancel_left i _ _ (
      append_cancel_left (codes ":") _ _ (
        append_cancel_left s _ _ (
          append_cancel_left (codes "saga:") _ _
            (append_cancel_left (codes "::") _ _ (append_cancel_left t _ _ h))))))

module _ {C : Type 0} (row other : QueueItem C) (same : SameInstance row other) where
  same_slot : other.id ≡ row.id → slot_of (rewrite_command other) ≡ slot_of (rewrite_command row)
  unfolding rewrite_command
  same_slot e = rw (same.0, same.1, same.2, e) refl

  other_slot : other.id ≢ row.id → slot_of (rewrite_command row) ≢ slot_of (rewrite_command other)
  unfolding rewrite_command dispatch_key slot_key
  other_slot ne h = ne (
      sym (
        key_cancel row.tenant_id row.saga_name row.instance_id row.id other.id
          (rw (same.0, same.1, same.2) at h)))

-- On a bus without user middleware, take a queue row whose command passes the gates, is not exempt
-- from idempotency, finds its slot free and is handled without an error. A row of the same instance
-- of a saga that is then dispatched, passes the gates and is not exempt, gets the first result and
-- changes nothing where it has the same row id, whatever its command and the key that the saga gave
-- it; and where it has another row id, a free slot and a handler that succeeds, its own handler
-- runs.
pub send-rewrite_command :
    {C R A : Type 0} (bus : CommandBus C R A) (env env' : Surroundings R A) (fuel fuel' : ℕ)
    (row other : QueueItem C) (entry entry' : RegisteredHandler C R A) (w : BusState R A) (r : R)
    (a : A)
    → bus.user_middleware ≡ []
    → SameInstance row other
    → gate bus (rewrite_command row) ≡ ok entry
    → gate bus (rewrite_command other) ≡ ok entry'
    → includes bus.skip_for_command_types (rewrite_command row).type ≡ false
    → includes bus.skip_for_command_types (rewrite_command other).type ≡ false
    → lookup (slot_of (rewrite_command row)) w.slots ≡ none
    → entry.handle (rewrite_command row) w.app ≡ (ok r, a)
    → (w' : BusState R A) × (send env (suc fuel) bus (rewrite_command row) w ≡ some (ok r, w'))
      × (w'.app ≡ a)
      × (other.id ≡ row.id → send env' (suc fuel') bus (rewrite_command other) w' ≡ some (ok r, w'))
      × ((r' : R) (a' : A)
          → other.id ≢ row.id
          → lookup (slot_of (rewrite_command other)) w.slots ≡ none
          → entry'.handle (rewrite_command other) a ≡ (ok r', a')
          → (w'' : BusState R A) × (send env' (suc fuel') bus (rewrite_command other) w'
              ≡ some (ok r', w''))
            × (w''.app ≡ a'))
send-rewrite_command bus env env' fuel fuel' row other entry entry' w r a plain same g g' c c' free
      h =
    let cmd = rewrite_command row in
    let w' = handled_state cmd r a w in
    let still_free : other.id ≢ row.id
        → lookup (slot_of (rewrite_command other)) w.slots ≡ none
        → lookup (slot_of (rewrite_command other)) w'.slots ≡ none =
      λ (ne : other.id ≢ row.id) (free' : lookup (slot_of (rewrite_command other)) w.slots ≡ none).
        ground (
          arith,
          free',
          lookup-insert (slot_of cmd) (slot_of (rewrite_command other)) (completed r)
              (insert (slot_of cmd) (in_flight cmd.metadata.command_id) w.slots),
          lookup-insert (slot_of cmd) (slot_of (rewrite_command other))
              (in_flight cmd.metadata.command_id) w.slots,
          str_eq→eq (slot_of cmd) (slot_of (rewrite_command other)),
          other_slot row other same ne,
        ) in
    (
      w',
      send_new bus plain env fuel cmd entry w r a g c free h,
      refl,
      λ e. send_repeated bus plain env' fuel' (rewrite_command other) entry' w' r g' c' (
          ground (
            arith,
            same_slot row other same e,
            lookup-insert_self (slot_of cmd) (completed r)
                (insert (slot_of cmd) (in_flight cmd.metadata.command_id) w.slots),
          )),
      λ r' a' ne free' h'. (
        handled_state (rewrite_command other) r' a' w',
        send_new bus plain env' fuel' (rewrite_command other) entry' w' r' a' g' c'
            (still_free ne free') h',
        refl,
      ),
    )
