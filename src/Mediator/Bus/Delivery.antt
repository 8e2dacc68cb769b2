-- ===== src/Mediator/Bus/Delivery.antt =====
-- Sending a command through the bus: termination, atomicity, and the effect of a repeated key.
use eventfabric.Base.{
  ℕ, zero, suc, ◌+◌, ◌*◌, ◌≤◌, ◌≡◌, refl, inl, inr, Str, true, false, ◌||◌, Option, none, some, [],
  arith, leb, Bool-cases, Result-cases, lookup, insert, lookup-insert_self, includes, Action,
  Result, ok, err, Error, command_in_flight, subst, or_else, lookup-insert, lookup-erase, str_eq→eq,
}
use eventfabric.Core.Retry.{
  default_is_concurrency_error, with_concurrency_retry-rule, with_concurrency_retry-ok,
}
use eventfabric.Mediator.Command.{Command}
use eventfabric.Mediator.Idempotency.{in_flight, completed, slot_key, claim, complete, release}
use eventfabric.Mediator.Bus.{
  CommandBus, BusState, Surroundings, RegisteredHandler, is_reject, run_chain, after_round, attempt,
  send_loop, gate, send, in_transaction,
}

abbrev pub slot_of : {C : Type 0} → Command C → Str
slot_of cmd = slot_key cmd.metadata.tenant_id cmd.metadata.idempotency_key

module _ {C R A : Type 0} (bus : CommandBus C R A) (handle : Command C → Action A R)
    (cmd : Command C) where
  -- A round after the waiting time is the last.
  ended :
      (env : Surroundings R A) (k : ℕ) (s : Result R × BusState R A)
      → leb bus.in_flight_wait_ms (env.elapsed k) ≡ true
      → (again : Option (Result R × BusState R A))
      → (t : Result R × BusState R A) × (after_round env bus k s again ≡ some t)
  ended env k (ok result, w) over again = ((ok result, w), refl)
  ended env k (err (command_in_flight key), w) over again =
      ((err (command_in_flight key), w), ground arith)
  ended env k (err e, w) over again = ((err e, w), refl)

  goes_on :
      (env : Surroundings R A) (k : ℕ) (s : Result R × BusState R A)
      (again : Option (Result R × BusState R A))
      → (t : Result R × BusState R A) × (again ≡ some t)
      → (t : Result R × BusState R A) × (after_round env bus k s again ≡ some t)
  goes_on env k (ok result, w) again h = ((ok result, w), refl)
  goes_on env k (err (command_in_flight key), w) again (t, e) =
      elim (Bool-cases
        (is_reject bus.conflict_strategy || leb bus.in_flight_wait_ms (env.elapsed k))) [
          | inl stop ↦ ((err (command_in_flight key), w), rw stop)
          | inr on ↦ (t, rw on e)
        ]
  goes_on env k (err e, w) again h = ((err e, w), refl)

  -- The loop ends with the round whose sleeps are as long as the waiting time.
  pub send_loop_total :
      (env : Surroundings R A) (fuel k : ℕ) (w : BusState R A)
      → ((j : ℕ) → j * bus.poll_interval_ms ≤ env.elapsed j)
      → bus.in_flight_wait_ms ≤ (fuel + k) * bus.poll_interval_ms
      → (s : Result R × BusState R A) × (send_loop env bus handle cmd (suc fuel) k w ≡ some s)
  unfolding send_loop
  send_loop_total env zero k w passes h =
      let s = attempt bus handle cmd w in
      let over : leb bus.in_flight_wait_ms (env.elapsed k) ≡ true = ground (arith, h, passes k) in
      ended env k s over none
  send_loop_total env (suc fuel) k w passes h =
      let s = attempt bus handle cmd w in
      let room : bus.in_flight_wait_ms ≤ (fuel + suc k) * bus.poll_interval_ms =
        subst (λ n. bus.in_flight_wait_ms ≤ n * bus.poll_interval_ms) (omega arith) h in
      goes_on env k s (send_loop env bus handle cmd (suc fuel) (suc k) (env.others k s.1))
        (send_loop_total env fuel (suc k) (env.others k s.1) passes room)

module _ {C R A : Type 0} (bus : CommandBus C R A) (handle : Command C → Action A R)
    (cmd : Command C) (plain : bus.user_middleware ≡ []) where
  -- What a command that fails leaves of the slots: the same for every key.
  run_chain_failed :
      (w : BusState R A) (e : Error) (k : Str)
      → (run_chain bus handle cmd w).0 ≡ err e
      → lookup k (run_chain bus handle cmd w).1.slots ≡ lookup k w.slots
  unfolding run_chain claim complete release
  run_chain_failed w e k h =
      let here = slot_of cmd in
      ground (
        arith,
        h,
        lookup-erase here k (insert here (in_flight cmd.metadata.command_id) w.slots),
        lookup-insert here k (in_flight cmd.metadata.command_id) w.slots,
        str_eq→eq here k,
      )

module _ {C R A : Type 0} (bus : CommandBus C R A) (handle : Command C → Action A R)
    (cmd : Command C) (plain : bus.user_middleware ≡ [])
    (covered : includes bus.skip_for_command_types cmd.type ≡ false) where
  run_chain_new :
      (w : BusState R A) (r : R) (a : A)
      → lookup (slot_of cmd) w.slots ≡ none
      → handle cmd w.app ≡ (ok r, a)
      → run_chain bus handle cmd w ≡ (
        ok r,
        record {
          slots =
              insert
                (slot_of cmd)
                (completed r)
                (insert (slot_of cmd) (in_flight cmd.metadata.command_id) w.slots);
          app = a;
        },
      )
  unfolding run_chain claim complete
  run_chain_new w r a e h = ground arith

  run_chain_repeated :
      (w : BusState R A) (r : R)
      → lookup (slot_of cmd) w.slots ≡ some (completed r)
      → run_chain bus handle cmd w ≡ (ok r, w)
  unfolding run_chain claim
  run_chain_repeated w r e = ground arith

  run_chain_busy :
      (w : BusState R A) (c : Str)
      → lookup (slot_of cmd) w.slots ≡ some (in_flight c)
      → run_chain bus handle cmd w ≡ (err (command_in_flight cmd.metadata.idempotency_key), w)
  unfolding run_chain claim
  run_chain_busy w c e = ground arith

  attempt_new :
      (w : BusState R A) (r : R) (w' : BusState R A)
      → run_chain bus handle cmd w ≡ (ok r, w')
      → attempt bus handle cmd w ≡ (ok r, w')
  unfolding attempt
  attempt_new w r w' h =
      with_concurrency_retry-ok default_is_concurrency_error
        (in_transaction (run_chain bus handle cmd)) bus.max_attempts w r w' (ground (arith, h))

  send_loop_ok :
      (env : Surroundings R A) (fuel : ℕ) (w : BusState R A) (r : R) (w' : BusState R A)
      → run_chain bus handle cmd w ≡ (ok r, w')
      → send_loop env bus handle cmd (suc fuel) 0 w ≡ some (ok r, w')
  unfolding send_loop
  send_loop_ok env fuel w r w' h = rw (attempt_new w r w' h)

-- The state behind a command that was handled.
abbrev pub handled_state : {C R A : Type 0} → Command C → R → A → BusState R A → BusState R A
handled_state cmd r a w = record {
  slots =
      insert (slot_of cmd) (completed r)
        (insert (slot_of cmd) (in_flight cmd.metadata.command_id) w.slots);
  app = a;
}

module _ {C R A : Type 0} (bus : CommandBus C R A) (plain : bus.user_middleware ≡ []) where
  -- A command whose slot is free and that is handled without an error.
  pub send_new :
      (env : Surroundings R A) (fuel : ℕ) (cmd : Command C) (entry : RegisteredHandler C R A)
      (w : BusState R A) (r : R) (a : A)
      → gate bus cmd ≡ ok entry
      → includes bus.skip_for_command_types cmd.type ≡ false
      → lookup (slot_of cmd) w.slots ≡ none
      → entry.handle cmd w.app ≡ (ok r, a)
      → send env (suc fuel) bus cmd w ≡ some (ok r, handled_state cmd r a w)
  unfolding send
  send_new env fuel cmd entry w r a g c free h =
      rw (g, send)
        (send_loop_ok bus entry.handle cmd plain c env fuel w r (handled_state cmd r a w)
          (run_chain_new bus entry.handle cmd plain c w r a free h))

  -- A command whose slot is completed gets the stored result; the handler does not run and nothing
  -- changes.
  pub send_repeated :
      (env : Surroundings R A) (fuel : ℕ) (cmd : Command C) (entry : RegisteredHandler C R A)
      (w : BusState R A) (r : R)
      → gate bus cmd ≡ ok entry
      → includes bus.skip_for_command_types cmd.type ≡ false
      → lookup (slot_of cmd) w.slots ≡ some (completed r)
      → send env (suc fuel) bus cmd w ≡ some (ok r, w)
  unfolding send
  send_repeated env fuel cmd entry w r g c e =
      rw (g, send)
        (send_loop_ok bus entry.handle cmd plain c env fuel w r w
          (run_chain_repeated bus entry.handle cmd plain c w r e))

  -- On a bus without user middleware, a command that passes the gates, is not exempt from
  -- idempotency, finds its slot free and is handled without an error runs its handler once, on the
  -- state as it is. The next command that passes the gates, is not exempt and has the same slot
  -- gets the first result, and the state stays as the first one left it.
  pub send-send :
      (env env' : Surroundings R A) (fuel fuel' : ℕ) (cmd cmd' : Command C)
      (entry entry' : RegisteredHandler C R A) (w : BusState R A) (r : R) (a : A)
      → gate bus cmd ≡ ok entry
      → gate bus cmd' ≡ ok entry'
      → includes bus.skip_for_command_types cmd.type ≡ false
      → includes bus.skip_for_command_types cmd'.type ≡ false
      → slot_of cmd' ≡ slot_of cmd
      → lookup (slot_of cmd) w.slots ≡ none
      → entry.handle cmd w.app ≡ (ok r, a)
      → (w' : BusState R A) × (send env (suc fuel) bus cmd w ≡ some (ok r, w'))
        × (w'.app ≡ a)
        × (send env' (suc fuel') bus cmd' w' ≡ some (ok r, w'))
  send-send env env' fuel fuel' cmd cmd' entry entry' w r a g g' c c' same free h = (
    handled_state cmd r a w,
    send_new env fuel cmd entry w r a g c free h,
    refl,
    send_repeated env' fuel' cmd' entry' (handled_state cmd r a w) r g' c'
        (rw same (lookup-insert_self (slot_of cmd) (completed r) _)),
  )

module _ {C R A : Type 0} (bus : CommandBus C R A) (env : Surroundings R A) where
  -- Where `n` poll intervals are as long as the waiting time and each sleep lasts at least one,
  -- `send` ends after at most `n + 1` rounds, with a result or an error.
  pub send_total :
      (n : ℕ) (cmd : Command C) (w : BusState R A)
      → bus.in_flight_wait_ms ≤ n * bus.poll_interval_ms
      → ((j : ℕ) → j * bus.poll_interval_ms ≤ env.elapsed j)
      → (s : Result R × BusState R A) × (send env (suc n) bus cmd w ≡ some s)
  unfolding send
  send_total n cmd w long passes = elim (Result-cases (gate bus cmd)) [
    | inl (entry, g) ↦
        let t =
          send_loop_total bus entry.handle cmd env n 0 w passes
            (subst (λ m. bus.in_flight_wait_ms ≤ m * bus.poll_interval_ms) (omega arith) long) in
        (t.0, rw (g, send) t.1)
    | inr (e, g) ↦ ((err e, w), rw (g, send))
  ]

-- The application's state is the same, and so is the slot of every key.
abbrev pub Restores : {R A : Type 0} → BusState R A → BusState R A → Type 0
Restores w w' = (w'.app ≡ w.app) × ((k : Str) → lookup k w'.slots ≡ lookup k w.slots)

module _ {C R A : Type 0} (bus : CommandBus C R A) (env : Surroundings R A)
    (plain : bus.user_middleware ≡ []) where
  in_transaction-Restores :
      (handle : Command C → Action A R) (cmd : Command C) (w v : BusState R A) (e : Error)
      → Restores w v
      → (in_transaction (run_chain bus handle cmd) v).0 ≡ err e
      → Restores w (in_transaction (run_chain bus handle cmd) v).1
  in_transaction-Restores handle cmd w v e p h =
      elim (Result-cases (run_chain bus handle cmd v).0) [
        | inl (r, g) ↦ absurd (ground (arith, h, g))
        | inr (x, g) ↦ (
          ground (arith, g, p.0),
          λ k. ground (arith, g, run_chain_failed bus handle cmd plain v x k g, p.1 k),
        )
      ]

  attempt-Restores :
      (handle : Command C → Action A R) (cmd : Command C) (w v : BusState R A) (e : Error)
      → Restores w v
      → (attempt bus handle cmd v).0 ≡ err e
      → Restores w (attempt bus handle cmd v).1
  unfolding attempt
  attempt-Restores handle cmd w v e p h =
      with_concurrency_retry-rule default_is_concurrency_error
        (in_transaction (run_chain bus handle cmd)) (λ u. Restores w u)
        (λ s. (s.0 ≡ err e) → Restores w s.1)
        (λ u q g. in_transaction-Restores handle cmd w u e q g)
        (λ u x q g. in_transaction-Restores handle cmd w u x q g) bus.max_attempts v p h

  after_round-Restores :
      (k : ℕ) (s : Result R × BusState R A) (w w' : BusState R A) (e : Error)
      (again : Option (Result R × BusState R A))
      → ((x : Error) → s.0 ≡ err x → Restores w s.1)
      → (Restores w s.1 → again ≡ some (err e, w') → Restores w w')
      → after_round env bus k s again ≡ some (err e, w')
      → Restores w w'
  after_round-Restores k (ok result, v) w w' e again own rest h = absurd (ground (arith, h))
  after_round-Restores k (err (command_in_flight key), v) w w' e again own rest h =
      elim (Bool-cases
        (is_reject bus.conflict_strategy || leb bus.in_flight_wait_ms (env.elapsed k))) [
          | inl stop ↦
              let same : v ≡ w' = ground (arith, h, stop) in
              subst (Restores w) same (own (command_in_flight key) refl)
          | inr on ↦ rest (own (command_in_flight key) refl) (ground (arith, h, on))
        ]
  after_round-Restores k (err x, v) w w' e again own rest h =
      let same : v ≡ w' = ground (arith, h) in subst (Restores w) same (own x refl)

  send_loop-Restores :
      (handle : Command C → Action A R) (cmd : Command C) (fuel k : ℕ) (w v w' : BusState R A)
      (e : Error)
      → ((j : ℕ) (u : BusState R A) → env.others j u ≡ u)
      → Restores w v
      → send_loop env bus handle cmd fuel k v ≡ some (err e, w')
      → Restores w w'
  unfolding send_loop
  send_loop-Restores handle cmd zero k w v w' e alone p h = absurd (ground (arith, h))
  send_loop-Restores handle cmd (suc fuel) k w v w' e alone p h =
      let s = attempt bus handle cmd v in
      after_round-Restores k s w w' e (send_loop env bus handle cmd fuel (suc k) (env.others k s.1))
        (λ x q. attempt-Restores handle cmd w v x p q)
        (λ p' q.
          send_loop-Restores handle cmd fuel (suc k) w s.1 w' e alone p' (rw (alone k s.1) at q))
        h

  -- On a bus without user middleware, and where no other worker runs in between, a command that
  -- ends in an error leaves the application's state and the slot of every key as they were: the
  -- slot that it claimed in memory, which no transaction restores, is free again.
  pub send_atomic :
      (fuel : ℕ) (cmd : Command C) (w w' : BusState R A) (e : Error)
      → ((j : ℕ) (v : BusState R A) → env.others j v ≡ v)
      → send env fuel bus cmd w ≡ some (err e, w')
      → Restores w w'
  unfolding send
  send_atomic fuel cmd w w' e alone h = elim (Result-cases (gate bus cmd)) [
    | inl (entry, g) ↦
        send_loop-Restores entry.handle cmd fuel 0 w w w' e alone (refl, λ k. refl)
          (rw (g, send) at h)
    | inr (x, g) ↦
        let same : some (err x, w) ≡ some (err e, w') = ground (arith, g, h) in
        subst (λ (o : Option (Result R × BusState R A)). Restores w (or_else o (err x, w)).1) same
          (refl, λ k. refl)
  ]
