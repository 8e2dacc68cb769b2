-- ===== src/Lib.antt =====
-- EventFabric: event sourcing, a command bus and process managers (sagas).
--
-- The program has these parts. The core package (packages/core) holds the types of events, the
-- aggregates with their repository, the hash chain and the concurrency retry, and runs projections
-- over the event log. The Postgres package (packages/postgres) stores the streams of events, with a
-- version and, where an aggregate is tamper-evident, a hash chain for each: the repository appends
-- an aggregate's pending events at the version that it was loaded at, and the projections read
-- what was appended. The mediator (packages/mediator)
-- routes commands to handlers: `send` opens a transaction, claims the command's idempotency slot,
-- runs the middleware and the handler, and completes the slot. The slots that are kept in memory are
-- outside of the transaction, which restores the application's state only. Sagas
-- (packages/sagas) react to events and timers: the runner advances one instance and, in the same
-- transaction, queues commands and schedules timers; the dispatcher drains the queue through the
-- command bus, and the scheduler feeds due timers back to the runner. Their stores are kept in
-- memory, or in tables (packages/sagas-postgres, packages/mediator-postgres).
--
-- The files, by the code that they model:
--   Base: shared names; numbers, text, lists, maps, sorting; errors, results and transactions
--     (PgUnitOfWork.withTransaction in packages/postgres/src/unitofwork/pg-unit-of-work.ts, and the
--     error classes of packages/mediator/src/errors.ts).
--   Core/Types: packages/core/src/types.ts.
--   Core/Retry: withConcurrencyRetry in packages/core/src/resilience/with-concurrency-retry.ts.
--   Core/Projections: topic-filter.ts, catch-up-projector.ts and async-projection-runner.ts in
--     packages/core/src/projections, over the checkpoints of
--     packages/postgres/src/projections/pg-projection-checkpoint-store.ts, the outbox of
--     packages/postgres/src/outbox/pg-outbox-store.ts, and loadGlobal, discoverActiveTenants and
--     loadByGlobalPositions of packages/postgres/src/pg-event-store.ts. Async is processOne,
--     Async/BatchMode processBatch and a round of the runner, and CatchUp/Discovery finds the
--     tenants.
--   Core/Aggregate: packages/core/src/aggregates/aggregate-root.ts.
--   Core/Integrity: canonicalJson and the hashes of packages/core/src/integrity/hash-chain.ts.
--   Postgres/EventStore: append, startStream, loadStream, loadByGlobalPositions, dismiss,
--     verifyStream and verifyAggregate of packages/postgres/src/pg-event-store.ts. Tables holds the
--     rows, Rows what is written and read, and Append, Reads and Verify the operations; Projected
--     is an append with the projections behind it.
--   Postgres/Snapshots: packages/postgres/src/snapshots/pg-snapshot-store.ts.
--   Postgres/Repository: packages/core/src/repository.ts over these two, with inline-projector.ts of
--     packages/core/src/projections.
--   Postgres/Session: packages/postgres/src/session.ts; Save is saveChangesAsync, Load the ways of
--     loading, and Factory createSession with packages/postgres/src/tenancy/tenant-resolver.ts.
--   Postgres/Anchors: packages/postgres/src/chain-anchor-sealer.ts; Seal is seal, Check is
--     verifyAnchors, and Rounds the runner.
--   Postgres/DeadLetters: packages/postgres/src/outbox/pg-dlq-service.ts.
--   Mediator/Command, Mediator/Idempotency, Mediator/Bus: command.ts, in-memory-idempotency-store.ts,
--     and middleware.ts with command-bus.ts, all in packages/mediator/src.
--   Sagas/Saga, Sagas/StateStore, Sagas/CommandQueue, Sagas/TimerStore: saga.ts and the in-memory
--     stores in packages/sagas/src.
--   Sagas/Runner: applySagaTransition in packages/sagas/src/saga-runner.ts.
--   Sagas/Dispatcher, Sagas/Scheduler: runOnce of SagaCommandDispatcher and of SagaTimerScheduler
--     in packages/sagas/src.
--   SagasPostgres/TimerStore, SagasPostgres/CommandQueue, SagasPostgres/StateStore:
--     pg-saga-timer-store.ts, pg-saga-command-queue.ts and pg-saga-state-store.ts in
--     packages/sagas-postgres/src, the stores of the sagas on tables.
--   MediatorPostgres/IdempotencyStore: packages/mediator-postgres/src/pg-idempotency-store.ts.
-- The modules below a component's module hold its proofs; the modules named Tests hold runs at
-- concrete data.
--
-- Text is a list of character codes, a time is a number of milliseconds, a bigint position is a
-- natural number, and a `Map` is an association list. A call that may reject is a function from
-- the store to a result and the store that it leaves. Loops over lists are structural. The retry
-- counts down the attempts that are left. The waiting loop of `send` runs on fuel: its
-- rounds are at least a poll interval apart, so that one round more than there are poll intervals in
-- the waiting time is enough. The catch-up loop runs on fuel too: every tenant that stays pending has
-- moved over an event of the log, so that one pass more than the log has events is enough.
--
-- The payloads of commands, events, timers and results are type parameters, and handlers and sagas
-- are functions of the model's arguments; so is the text that is kept of an error. The clock, and
-- what other workers do while a command waits, are parameters too. The projector reads a log that
-- does not grow during a call. The order of texts is that of the database.
--
-- A table is a list of rows, in the order of its sequence, and an SQL statement is what it does to
-- the list. Rows that other transactions have locked, and what they commit between two statements
-- of one call, are arguments. Numbers drawn from a sequence or by randomUUID are arguments. What the
-- code takes from node and from Postgres is a record of functions: the quoting of strings, UTF-8,
-- HMAC-SHA256, an event as a JSON value, and the event that a column of type jsonb gives back.
-- Theorems that need it have the hypothesis that a stored value is read back with the same JSON
-- value.
--
-- Not modelled: observers and logging, whose errors are swallowed; sleeping, and the start and stop
-- loops of the workers, which repeat the rounds that are modelled; the migrator, the partitions, the
-- query builder and the statistics of the outbox, which are text of SQL and no state of the program;
-- the floating-point delays of the backoff; the example applications; and the OpenTelemetry adapters.
pub mod Base
pub mod Core
pub mod Mediator
pub mod Sagas
pub mod MediatorPostgres
pub mod SagasPostgres
pub mod Postgres
