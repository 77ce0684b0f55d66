-- ===== src/Lib.antt =====
-- Outboxy: a transactional outbox. Applications write events to a table; workers claim them in
-- batches, send them through a publisher and record the outcome; maintenance recovers and cleans up;
-- an HTTP API reads and replays events.
--
-- The parts, and the files that model them:
--   Base        booleans, lists, texts and maps as the code uses them: a text is the list of its
--               UTF-16 units, a JavaScript `Map` an association list in insertion order.
--   Schema      packages/schema/src: the event row and the event (`OutboxEventRow`, `OutboxEvent`,
--               `map_row_to_event`), the statuses, JSON values. A time stamp is a number of
--               microseconds.
--   Sql         `UPDATE ... WHERE ... RETURNING`, `ORDER BY created_at` and primary keys on a table,
--               which is the list of its rows in scan order. One statement is atomic, at one `NOW()`.
--   Dialect     packages/dialect-core/src, dialect-postgres/src and dialect-mysql/src: a dialect is a
--               record of functions from the parameters to a statement, which is its text and what it
--               carries. `Contract` is what the clients rely on.
--   Sdk         packages/sdk/src: `Client` is client.ts and `InboxClient` inbox-client.ts; `Events`
--               and `InboxEvents` are their inputs and checks, `Calls` and `Chunks` the steps that both
--               take. The executor, JSON.stringify and randomUUID are the record `Runtime` over a world
--               of any type.
--   Postgres    packages/db-adapter-postgres/src: `Errors` is errors.ts, `EventRepository`,
--               `EventService`, `Maintenance` and `Inbox` are the repositories with these names. A method
--               takes its session and the table, and returns the table with the method's result. The
--               session has the time, the rows that other transactions lock, and the error that the
--               driver throws, if it does.
--   Mysql       packages/db-adapter-mysql/src, likewise. Where the code runs several statements in turn,
--               what other transactions do between them is an argument.
--   Publisher   packages/publisher-core/src/types.ts; `Http` and `Kafka` are packages/publisher-http
--               and packages/publisher-kafka. The HTTP client and the producer are parameters.
--   Detection   packages/db-adapter-core/src/adapter-detection.ts and canHandle of the adapters.
--   Migrations  packages/migrations/src/runner.ts: `Runner` is the directory of scripts and what a
--               script does to a schema of any type.
--   Worker      packages/worker/src: `Retry` is retry.ts, `Batch` is batch.ts, `Config` is config.ts;
--               `Metrics`, `Execute` and `Loop` are core/worker.ts: the samples that a batch records,
--               `executeBatchProcessing` and `publishEvents`, and the poll loop with its sleep.
--               `Scheduler` is maintenance-scheduler.ts, `Cluster` core/worker-cluster.ts and
--               `Identity` utils/worker-identity.ts. A cluster's calls go on from each `await` as an
--               occurrence of its own, so that they may overlap.
--   Api         packages/api/src/handlers: admin.handlers.ts and events.handlers.ts; `Errors` is
--               plugins/error-handler.plugin.ts.
--   Lifecycle   the statements as the steps of one table: `Reach` is any interleaving of workers,
--               maintenance and API. Its modules have the invariant of the table, the handlers as
--               sequences of steps, turns of the loop over time, stranded events, and the flights of
--               events that workers hold between a claim and its settlement.
--   Tests       the theorems at concrete inputs.
--
-- The loop runs over a list of turns that the world offers (`Turn`): for each, whether `stop` was
-- called, the sessions of its statements and the publisher's answer. It stops at the first turn that
-- is stopped, or with the list, so no fuel is needed. The chunking of the SDK need not end (where a
-- statement has room for no event), so it runs on fuel: as many rounds as there are events, and two
-- more, are enough.
--
-- What the model leaves out: other transactions between the statements of one batch (`Reach` has
-- every order of statements), the constraint checks of `UPDATE` (a violation is an error of the
-- session), the clean-up of in-flight batches on shutdown, log lines, the gauges of the poll
-- interval and of pending events, the histogram of batch sizes, and the order in which concurrent
-- requests answer: their results have different keys. Numbers of the configuration are natural;
-- the backoff multiplier is a decimal fraction. The sleep is in half milliseconds, so that half
-- the maximum is exact. Not modelled: the factory of the SDK's clients, the start and stop of a
-- single worker with its timeout, the servers, observability and test code.
pub mod Base
pub mod Detection
pub mod Dialect
pub mod Schema
pub mod Sdk
pub mod Sql
pub mod Postgres
pub mod Publisher
pub mod Worker
pub mod Api
pub mod Lifecycle
pub mod Migrations
pub mod Mysql
pub mod Tests
