-- ===== src/Core/Projections/Tests/Runner.antt =====
-- The runner of the outbox at concrete data.
use eventfabric.Base.{
  error_message, ℕ, ◌≡◌, refl, codes, false, none, some, [], ◌∷◌, arith, ok, err, thrown, All,
}
use eventfabric.Core.Projections.Checkpoints.{get}
use eventfabric.Core.Projections.TopicFilter.{matches_topic}
use eventfabric.Core.Projections.Outbox.{
  OutboxEntry, OutboxRow, IsSettled, claim_batch, claim_entries,
}
use eventfabric.Core.Projections.Async.{
  AsyncProjection, AsyncState, event_at, settle_row, process_one, run_projection, run_projections,
}
use eventfabric.Core.Projections.Async.BatchMode.{per_row, process_rows, run_round}
use eventfabric.Core.Projections.Async.Rounds.{IsStranded, claimed_state, run_round-IsStranded}
use eventfabric.Core.Projections.Async.PassedOver.{process_one-passes_over}
use eventfabric.Core.Projections.Async.Rows.{Settles, process_one-Settles}
use eventfabric.Core.Projections.Tests.{deposited, acme, balance, log, two_events}

abbrev balances : AsyncProjection ℕ ℕ
balances = record { name = codes "balance"; topic_filter = none; handle = balance.handle }

abbrev entry : OutboxEntry
entry = record {
  id = 1;
  tenant_id = acme;
  global_position = 2;
  topic = none;
  attempts = 1;
  locked_by = some (codes "w");
  last_error = none;
}

abbrev claimed_row : OutboxRow
claimed_row = record { id = 1; global_position = 2; topic = none; attempts = 1 }

abbrev claimed : AsyncState ℕ
claimed = record {
  outbox = record { rows = entry ∷ []; dead_letters = [] };
  checkpoints = [];
  app = 0;
}

process_one-Settles_example :
    Settles log
      (balances ∷ [])
      false
      10
      error_message
      claimed_row
      claimed
      (process_one log (balances ∷ []) false 10 error_message claimed_row claimed)
process_one-Settles_example =
    process_one-Settles log (balances ∷ []) false 10 error_message claimed_row claimed

-- Two free rows and a handler that fails.
abbrev waiting : AsyncState ℕ
waiting = record {
  outbox = record {
    rows =
        record entry { locked_by = none; attempts = 0 }
        ∷ record entry { id = 2; global_position = 3; locked_by = none; attempts = 0 }
        ∷ [];
    dead_letters = [];
  };
  checkpoints = [];
  app = 0;
}

abbrev broken : AsyncProjection ℕ ℕ
broken = record balances { handle = λ tenant e total. (err (thrown (codes "no")), total) }

abbrev second_row : OutboxRow
second_row = record { id = 2; global_position = 3; topic = none; attempts = 1 }

run_round-IsStranded_example :
    let (r, s) =
      run_round two_events
        (broken ∷ [])
        false
        10
        error_message
        per_row
        2
        (codes "w")
        none
        waiting in
    (r ≡ err (thrown (codes "no")))
    × All (IsStranded (claim_batch 2 (codes "w") none waiting.outbox).0 s) (second_row ∷ [])
unfolding claim_batch claim_entries process_rows process_one settle_row event_at run_projections
    run_projection matches_topic get
run_round-IsStranded_example =
    run_round-IsStranded two_events (broken ∷ []) false 10 error_message 2 (codes "w") none waiting
      (claimed_state 2 (codes "w") none waiting) [] claimed_row (second_row ∷ [])
      (thrown (codes "no")) ((omega arith, tt), (tt, tt)) refl refl refl

-- The second event went through while the row of the first was with another worker.
abbrev overtaken : AsyncState ℕ
overtaken = (process_one two_events (balances ∷ []) false 10 error_message second_row claimed).1

process_one-passes_over_example :
    let (r, s) =
      process_one two_events (balances ∷ []) false 10 error_message claimed_row overtaken in
    (r ≡ ok tt) × (s.app ≡ overtaken.app) × IsSettled 1 s.outbox
unfolding process_one settle_row event_at run_projections run_projection matches_topic get
process_one-passes_over_example =
    process_one-passes_over two_events (balances ∷ []) false 10 error_message claimed_row second_row
      claimed overtaken overtaken (deposited acme 2 none) (deposited acme 3 none) refl refl refl
      (omega arith) refl (omega arith) refl refl (λ n t. omega arith)
