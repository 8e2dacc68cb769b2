-- ===== src/Sagas/Dispatcher/Outcome.antt =====
-- What one round of the dispatcher does with the rows that it claimed, and what their keys tell.
use eventfabric.Base.{
  ℕ, suc, ◌+◌, ◌≤◌, ◌≡◌, refl, sym, ◌∙◌, ◌≢◌, inl, inr, Str, false, Option, none, some, List, [],
  ◌∷◌, ◌++◌, arith, length, All, leb, Bool-cases, codes, str_eq, str_eq_refl, Action, Result, ok,
  err, decimal, decimal-injective, decimal-IsColonFree, split_last_colon, error_message,
}
use mathlib.Core.List.{append_assoc}
use eventfabric.Mediator.Command.{Command}
use eventfabric.Sagas.CommandQueue.{
  CommandQueue, QueueItem, pending, claimed, dispatched, claim_batch, ack, release_with_error,
}
use eventfabric.Sagas.CommandQueue.Claim.{length-claim_batch-le}
use eventfabric.Sagas.CommandQueue.Rows.{status_of, status_of-update_row}
use eventfabric.Sagas.Dispatcher.{
  DispatcherOptions, Round, dispatch_key, rewrite_command, delay_until, give_up, after_send,
  dispatch_row, dispatch_rows, run_once,
}

-- Rows with different numbers are dispatched under different keys, whatever their sagas and
-- instances are called.
pub dispatch_key-injective :
    (s s' i i' : Str) (m n : ℕ)
    → dispatch_key s i (decimal m) ≡ dispatch_key s' i' (decimal n)
    → m ≡ n
unfolding dispatch_key
dispatch_key-injective s s' i i' m n e = decimal-injective m n (
    split_last_colon (front s i) (front s' i') (decimal m) (decimal n) (decimal-IsColonFree m)
      (decimal-IsColonFree n) (at_front s i (decimal m) ∙ (e ∙ sym (at_front s' i' (decimal n)))))
  where
    front : Str → Str → Str
    front s i = codes "saga:" ++ (s ++ (codes ":" ++ i))

    at_front :
        (s i d : Str)
        → front s i ++ (58 ∷ d) ≡ codes "saga:" ++ (s ++ (codes ":" ++ (i ++ (codes ":" ++ d))))
    at_front s i d = simp append_assoc

module _ {C R B : Type 0} (opts : DispatcherOptions C) (send : Command C → Action B R)
    (now : ℕ) where
  abbrev total : Round C B → ℕ
  total s = s.dispatched + s.failed + s.released

  after_send-total :
      (row : QueueItem C) (r : Result R) (s : Round C B)
      → total (after_send opts send now row r s) ≡ suc (total s)
  unfolding after_send
  after_send-total row (ok result) s = omega arith
  after_send-total row (err e) s = ground arith

  dispatch_rows-total :
      (rows : List (QueueItem C)) (s : Round C B)
      → total (dispatch_rows opts send now rows s) ≡ length rows + total s
  unfolding dispatch_rows dispatch_row
  dispatch_rows-total [] s = omega arith
  dispatch_rows-total (row ∷ rows) s =
      let t = send (rewrite_command row) s.bus in
      omega (
        arith,
        dispatch_rows-total rows (dispatch_row opts send now row s),
        after_send-total row t.0 (record s { bus = t.1 }),
      )

  -- A round accounts for every row that it claimed, and claims no more than the batch size.
  pub run_once-counts :
      (q : CommandQueue C) (b : B)
      → let result = (run_once opts send now q b).1 in
        (result.claimed ≡ result.dispatched + result.failed + result.released)
        × (result.claimed ≤ opts.batch_size)
  unfolding run_once
  run_once-counts q b =
      let (q', rows) = claim_batch opts.batch_size now q in
      let start : Round C B = record {
        queue = q';
        bus = b;
        dispatched = 0;
        failed = 0;
        released = 0;
      } in
      (omega (arith, dispatch_rows-total rows start), length-claim_batch-le opts.batch_size now q)

-- No row with the id is held by a worker.
abbrev pub IsNotClaimed : {C : Type 0} → Str → CommandQueue C → Type 0
IsNotClaimed id q = status_of id q.rows ≢ some claimed

module _ {C : Type 0} where
  ack-IsNotClaimed :
      (id j : Str) (q : CommandQueue C)
      → (str_eq id j ≡ false → IsNotClaimed j q)
      → IsNotClaimed j (ack id q)
  unfolding ack
  ack-IsNotClaimed id j q h e = ground (
    arith,
    status_of-update_row (λ row. record row { status = dispatched }) dispatched (λ row. refl)
        (λ row. refl) id j q.rows,
    h,
  )

  release-IsNotClaimed :
      (id j m : Str) (d : Option ℕ) (q : CommandQueue C)
      → (str_eq id j ≡ false → IsNotClaimed j q)
      → IsNotClaimed j (release_with_error id m d q)
  unfolding release_with_error
  release-IsNotClaimed id j m d q h e = ground (
    arith,
    status_of-update_row
        (λ row. record row { status = pending; last_error = some m; next_attempt_at = d }) pending
        (λ row. refl) (λ row. refl) id j q.rows,
    h,
  )

module _ {C R B : Type 0} (opts : DispatcherOptions C) (send : Command C → Action B R) (now : ℕ)
    (plain : opts.mark_failed ≡ none) where
  after_send-IsNotClaimed :
      (row : QueueItem C) (j : Str) (r : Result R) (s : Round C B)
      → (str_eq row.id j ≡ false → IsNotClaimed j s.queue)
      → IsNotClaimed j (after_send opts send now row r s).queue
  unfolding after_send
  after_send-IsNotClaimed row j (ok result) s h = ack-IsNotClaimed row.id j s.queue h
  after_send-IsNotClaimed row j (err e) s h =
      elim (Bool-cases (leb opts.max_attempts row.attempts)) [
        | inl last ↦
            rw (last, plain, give_up)
              (release-IsNotClaimed row.id j (error_message e) none s.queue h)
        | inr again ↦ rw again (
            release-IsNotClaimed row.id j (error_message e)
              (delay_until now (opts.retry_backoff_ms row.attempts)) s.queue h)
      ]

  dispatch_rows-keeps :
      (rows : List (QueueItem C)) (j : Str) (s : Round C B)
      → IsNotClaimed j s.queue
      → IsNotClaimed j (dispatch_rows opts send now rows s).queue
  unfolding dispatch_rows dispatch_row
  dispatch_rows-keeps [] j s h = h
  dispatch_rows-keeps (row ∷ rows) j s h =
      let t = send (rewrite_command row) s.bus in
      dispatch_rows-keeps rows j (dispatch_row opts send now row s)
        (after_send-IsNotClaimed row j t.0 (record s { bus = t.1 }) (λ e. h))

  dispatch_rows-IsNotClaimed :
      (rows : List (QueueItem C)) (s : Round C B)
      → All (λ row. IsNotClaimed row.id (dispatch_rows opts send now rows s).queue) rows
  unfolding dispatch_rows dispatch_row
  dispatch_rows-IsNotClaimed [] s = tt
  dispatch_rows-IsNotClaimed (row ∷ rows) s =
      let t = send (rewrite_command row) s.bus in
      let next = dispatch_row opts send now row s in
      (
        dispatch_rows-keeps rows row.id next (
            after_send-IsNotClaimed row row.id t.0 (record s { bus = t.1 })
              (λ e. cc (e, str_eq_refl row.id))),
        dispatch_rows-IsNotClaimed rows next,
      )

  -- With a queue that has no `markFailed`, and whatever the bus answers, no row that the round
  -- claimed is still claimed when the round ends.
  pub run_once-IsNotClaimed :
      (q : CommandQueue C) (b : B)
      → All
          (λ row. IsNotClaimed row.id (run_once opts send now q b).0.queue)
          (claim_batch opts.batch_size now q).1
  unfolding run_once
  run_once-IsNotClaimed q b =
      let (q', rows) = claim_batch opts.batch_size now q in
      dispatch_rows-IsNotClaimed rows
        (record { queue = q'; bus = b; dispatched = 0; failed = 0; released = 0 })
