-- ===== src/Mediator/Bus.antt =====
-- packages/mediator/src/command-bus.ts and middleware.ts, over the in-memory idempotency store. A
-- handler works on the application's state `A` in the command's transaction; the bus also writes
-- the idempotency slots, which are outside of it. Narrowing the unit of work to a tenant changes no
-- state of the model.
pub mod Delivery
use eventfabric.Base.{
  ℕ, zero, suc, ◌+◌, ◌*◌, ◌-◌, Str, Bool, true, false, ◌&&◌, ◌||◌, Option, none, some, List, [],
  ◌∷◌, ◌++◌, codes, ltb, leb, if◌then◌else◌, Dict, lookup, insert, includes, Action, Result, ok,
  err, Error, command_in_flight, no_handler_registered, missing_tenant_id, thrown,
}
use eventfabric.Core.Retry.{default_is_concurrency_error, with_concurrency_retry}
use eventfabric.Mediator.Command.{Command}
use eventfabric.Mediator.Idempotency.{
  IdempotencyStore, ClaimResult, claimed, done, busy, claim, complete, release,
}

pub data IdempotencyMode : Type 0 where
  required off : IdempotencyMode

pub data ConflictStrategy : Type 0 where
  wait reject : ConflictStrategy

abbrev pub is_reject : ConflictStrategy → Bool
is_reject reject = true
is_reject wait = false

-- What a command writes: the slots in memory, and the application's state in a transaction.
pub record BusState (R A : Type 0) : Type 0 where
  pub slots : IdempotencyStore R
  pub app : A

-- The state behind one run of a composed chain: how often `next` has been called, and the rest.
abbrev pub ChainState : Type 0 → Type 0 → Type 0
ChainState R A = ℕ × BusState R A

-- `next` is the action that the middleware is given.
abbrev pub CommandMiddleware : Type 0 → Type 0 → Type 0 → Type 0
CommandMiddleware C R A = Command C → Action (ChainState R A) R → Action (ChainState R A) R

pub record RegisteredHandler (C R A : Type 0) : Type 0 where
  pub handle : Command C → Action A R
  pub idempotency : IdempotencyMode

pub record CommandBus (C R A : Type 0) : Type 0 where
  pub handlers : Dict (RegisteredHandler C R A)
  pub user_middleware : List (CommandMiddleware C R A)
  pub skip_for_command_types : List Str
  pub conflict_strategy : ConflictStrategy
  pub in_flight_wait_ms : ℕ
  pub poll_interval_ms : ℕ
  pub max_attempts : ℕ
  pub require_tenant_id : Bool
  pub tenant_validator : Option (Command C → Result (Unit {0}))

-- While a command waits: the time since it was sent, at the k-th check, and what other workers do
-- to the state in the k-th sleep.
pub record Surroundings (R A : Type 0) : Type 0 where
  pub elapsed : ℕ → ℕ
  pub others : ℕ → BusState R A → BusState R A

-- `!tenantId`: absent or the empty string.
abbrev pub is_missing : Option Str → Bool
is_missing none = true
is_missing (some []) = true
is_missing (some (c ∷ s)) = false

-- The transaction of a command: an error rolls the application's state back. The slots are a map in
-- memory, which no transaction restores.
abbrev pub in_transaction : {R A : Type 0} → Action (BusState R A) R → Action (BusState R A) R
in_transaction m w =
    let (r, w') = m w in
    elim r [ ok result ↦ (ok result, w') | err e ↦ (err e, record w' { app = w.app }) ]

module _ {C R A : Type 0} where
  -- `CommandBus.register`
  pub register :
      Str
      → (Command C → Action A R)
      → Option IdempotencyMode
      → CommandBus C R A
      → Result (CommandBus C R A)
  register type handle mode bus = elim (lookup type bus.handlers) [
    | some _ ↦
        err (
          thrown
            (codes "Handler for command type \"" ++ (type ++ codes "\" is already registered")))
    | none ↦ ok (record bus {
      handlers = insert type (record { handle = handle; idempotency = resolved mode }) bus.handlers;
      skip_for_command_types = skips (resolved mode);
    })
  ]
    where
      resolved : Option IdempotencyMode → IdempotencyMode
      resolved none = required
      resolved (some m) = m

      skips : IdempotencyMode → List Str
      skips required = bus.skip_for_command_types
      skips off = type ∷ bus.skip_for_command_types

  -- `composeMiddleware`: the chain from position `idx` on. A second call of the same `next` throws.
  unfoldable pub dispatch :
      List (CommandMiddleware C R A)
      → (Command C → Action A R)
      → ℕ
      → Command C
      → Action (ChainState R A) R
  dispatch [] terminal idx cmd (calls, w) =
      if ltb idx calls
      then (err (thrown (codes "next() called multiple times in middleware")), (calls, w))
      else let (r, app) = terminal cmd w.app in (r, (suc idx, record w { app = app }))
  dispatch (fn ∷ fns) terminal idx cmd (calls, w) =
      let rest = dispatch fns terminal (suc idx) cmd in
      if ltb idx calls
      then (err (thrown (codes "next() called multiple times in middleware")), (calls, w))
      else fn cmd rest (suc idx, w)

  -- What the idempotency middleware does with the outcome of `next`.
  abbrev settle_slot : Command C → Result R × ChainState R A → Result R × ChainState R A
  settle_slot cmd (ok result, (calls, w)) = (
    ok result,
    (
      calls,
      record w {
        slots = complete cmd.metadata.idempotency_key cmd.metadata.tenant_id result w.slots;
      },
    ),
  )
  settle_slot cmd (err e, (calls, w)) = (
    err e,
    (
      calls,
      record w { slots = release cmd.metadata.idempotency_key cmd.metadata.tenant_id w.slots },
    ),
  )

  -- `createIdempotencyMiddleware`
  unfoldable pub idempotency_middleware : List Str → CommandMiddleware C R A
  idempotency_middleware skip cmd next (calls, w) =
      if includes skip cmd.type
      then next (calls, w)
      else (let (state, slots) =
            claim cmd.metadata.idempotency_key cmd.metadata.command_id cmd.metadata.tenant_id
              w.slots in
          elim state [
            | busy ↦ (
              err (command_in_flight cmd.metadata.idempotency_key),
              (calls, record w { slots = slots }),
            )
            | done result ↦ (ok result, (calls, record w { slots = slots }))
            | claimed ↦ settle_slot cmd (next (calls, record w { slots = slots }))
          ])

  -- The chain for one command, from its start.
  unfoldable pub run_chain :
      CommandBus C R A → (Command C → Action A R) → Command C → Action (BusState R A) R
  unfolding dispatch idempotency_middleware
  run_chain bus handle cmd w =
      let (r, s) =
        dispatch (bus.user_middleware ++ (idempotency_middleware bus.skip_for_command_types ∷ []))
          handle 0 cmd (0, w) in
      (r, s.1)

  -- One round of `send`: the transaction under the concurrency retry.
  unfoldable pub attempt :
      CommandBus C R A → (Command C → Action A R) → Command C → Action (BusState R A) R
  attempt bus handle cmd =
      with_concurrency_retry default_is_concurrency_error
        (in_transaction (run_chain bus handle cmd)) bus.max_attempts

  -- What the loop does with the outcome of a round at the k-th check: returns it, throws it, or
  -- goes on after a sleep.
  abbrev pub after_round :
      Surroundings R A
      → CommandBus C R A
      → ℕ
      → Result R × BusState R A
      → Option (Result R × BusState R A)
      → Option (Result R × BusState R A)
  after_round env bus k (ok result, w) again = some (ok result, w)
  after_round env bus k (err (command_in_flight key), w) again =
      if is_reject bus.conflict_strategy || leb bus.in_flight_wait_ms (env.elapsed k)
      then some (err (command_in_flight key), w)
      else again
  after_round env bus k (err e, w) again = some (err e, w)

  -- The in-flight loop, on fuel; `none` means that the fuel ran out.
  unfoldable pub send_loop :
      Surroundings R A
      → CommandBus C R A
      → (Command C → Action A R)
      → Command C
      → ℕ
      → ℕ
      → BusState R A
      → Option (Result R × BusState R A)
  send_loop env bus handle cmd zero k w = none
  send_loop env bus handle cmd (suc fuel) k w =
      let s = attempt bus handle cmd w in
      let again = send_loop env bus handle cmd fuel (suc k) (env.others k s.1) in
      after_round env bus k s again

  -- The gates that run before any transaction.
  unfoldable pub gate : CommandBus C R A → Command C → Result (RegisteredHandler C R A)
  gate bus cmd = elim (lookup cmd.type bus.handlers) [
    | none ↦ err (no_handler_registered cmd.type)
    | some entry ↦
        if bus.require_tenant_id && is_missing cmd.metadata.tenant_id
        then err (missing_tenant_id cmd.type)
        else elim bus.tenant_validator [
          | none ↦ ok entry
          | some validate ↦ elim (validate cmd) [ ok _ ↦ ok entry | err e ↦ err e ]
        ]
  ]

  -- `CommandBus.send`
  unfoldable pub send :
      Surroundings R A
      → ℕ
      → CommandBus C R A
      → Command C
      → BusState R A
      → Option (Result R × BusState R A)
  send env fuel bus cmd w = elim (gate bus cmd) [
    | err e ↦ some (err e, w)
    | ok entry ↦ send_loop env bus entry.handle cmd fuel 0 w
  ]
