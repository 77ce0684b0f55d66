-- ===== src/Worker/Loop.antt =====
-- packages/worker/src/core/worker.ts: `calculatePollInterval`, `pollEvents` and `runPollLoop`.
pub mod Turns
pub mod Interval
use outboxy.Base.{
  ℕ, ◌*◌, Bool, List, [], ◌∷◌, Option, none, some, leb, ltb, if◌then◌else◌, is_empty, length,
}
use outboxy.Schema.{OutboxEvent}
use outboxy.Sql.Update.{Table}
use outboxy.Publisher.{Publisher}
use outboxy.Postgres.Errors.{Session, ok, err}
use outboxy.Postgres.EventRepository.{claim_pending_events}
use outboxy.Worker.Config.{WorkerConfig}
use outboxy.Worker.Execute.{
  Worker, BatchSessions, BatchOutcome, Failure, database, execute_batch_processing,
}

-- In half milliseconds, so that `adaptivePollingMaxPollIntervalMs / 2` is exact.
unfoldable pub calculate_poll_interval : WorkerConfig → ℕ → ℕ
calculate_poll_interval c batch_event_count =
    if c.adaptive_polling_enabled
    then (if leb c.batch_size batch_event_count
        then 0
        else if leb c.adaptive_polling_busy_threshold batch_event_count
        then c.adaptive_polling_min_poll_interval_ms * 4
        else if leb c.adaptive_polling_moderate_threshold batch_event_count
        then c.adaptive_polling_min_poll_interval_ms * 10
        else if ltb 0 batch_event_count
        then c.adaptive_polling_max_poll_interval_ms
        else c.adaptive_polling_max_poll_interval_ms * 2)
    else c.poll_interval_ms * 2

-- The world around one turn of the loop: whether `stop` was called before it, the session of the
-- claim, the publisher and its time, and the sessions of the batch.
pub record Turn : Type 0 where
  pub stopped : Bool
  pub claim : Session
  pub publisher : Publisher
  pub batch_duration_ms : ℕ
  pub batch : BatchSessions

-- What a turn did: the events that it claimed, what became of the batch, and how long it sleeps.
pub record TurnResult : Type 0 where
  pub events : List OutboxEvent
  pub outcome : Option BatchOutcome
  pub failure : Option Failure
  pub sleep_half_ms : ℕ

-- The rest of a turn after a batch, with the `catch` of the loop.
unfoldable pub finish_turn : Worker → List OutboxEvent → Table × BatchOutcome → Table × TurnResult
unfolding calculate_poll_interval
finish_turn w events (rows, outcome) = (
  rows,
  record {
    events = events;
    outcome = some outcome;
    failure = outcome.failure;
    sleep_half_ms = elim outcome.failure [
      | none ↦ calculate_poll_interval w.config (length events)
      | some e ↦ w.config.poll_interval_ms * 2
    ];
  },
)

-- The loop's body for the events of `pollEvents`.
unfoldable pub process_events : Worker → Turn → List OutboxEvent → Table → Table × TurnResult
unfolding finish_turn
process_events w t events rows =
    if is_empty events
    then (
      rows,
      record {
        events = [];
        outcome = none;
        failure = none;
        sleep_half_ms = calculate_poll_interval w.config 0;
      },
    )
    else finish_turn w events
        (execute_batch_processing w t.batch (t.publisher events) t.batch_duration_ms events rows)

unfoldable pub poll_turn : Worker → Turn → Table → Table × TurnResult
unfolding process_events
poll_turn w t rows =
    let (claimed, reply) = claim_pending_events t.claim w.config.batch_size rows in
    elim reply [
      | err e ↦ (
        claimed,
        record {
          events = [];
          outcome = none;
          failure = some (database e);
          sleep_half_ms = w.config.poll_interval_ms * 2;
        },
      )
      | ok events ↦ process_events w t events claimed
    ]

-- `while (this.isRunning)`, over the turns that the world offers.
unfoldable pub run_poll_loop : Worker → List Turn → Table → Table × List TurnResult
unfolding poll_turn
run_poll_loop w [] rows = (rows, [])
run_poll_loop w (t ∷ turns) rows =
    let (rows', result) = poll_turn w t rows in
    let (rows'', results) = run_poll_loop w turns rows' in
    if t.stopped then (rows, []) else (rows'', result ∷ results)
