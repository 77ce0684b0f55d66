-- ===== src/Lifecycle/Handlers.antt =====
-- The handlers of the worker and of the API, as sequences of statements.
use outboxy.Base.{List, [], ◌∷◌, Text, Map, find, is_empty, Bool-cases, Option-cases, inl, inr}
use outboxy.Schema.{OutboxEvent}
use outboxy.Sql.Update.{Table}
use outboxy.Postgres.Errors.{Session, Result-cases}
use outboxy.Postgres.EventRepository.{claim_pending_events}
use outboxy.Postgres.EventService.{
  replay_event, replay_events_in_range, ReplayRangeInput, is_replayable, is_visible_at, range_ids,
}
use outboxy.Worker.Batch.{BatchGroupingResult, group_batch_results}
use outboxy.Worker.Execute.{
  Worker, BatchSessions, with_worker, backoff_of, Collection, collected, type_error, settle,
  process_collected, execute_batch_processing,
}
use outboxy.Worker.Execute.Settle.{settle-table}
use outboxy.Worker.Loop.{Turn, process_events, poll_turn, finish_turn}
use outboxy.Lifecycle.{Reach, claim, succeed, retry, dead_letter, replay, replay_range, then}

module _ {start : Table} where
  settle-Reach :
      (w : Worker) (ss : BatchSessions) (g : BatchGroupingResult) (messages : Map Text)
      (rows : Table)
      → Reach start rows
      → Reach start (settle w ss g messages rows).0
  settle-Reach w ss g messages rows r = rw (settle-table w ss g messages rows) (
      then
        (then (then r (succeed ss.succeeded (with_worker w.worker_id g.succeeded)))
          (retry ss.retried g.retried messages (backoff_of w.config)))
        (dead_letter ss.dlq g.dlq messages))

  process_collected-Reach :
      (w : Worker) (ss : BatchSessions) (events : List OutboxEvent) (c : Collection) (rows : Table)
      → Reach start rows
      → Reach start (process_collected w ss events c rows).0
  unfolding process_collected
  process_collected-Reach w ss events (collected c) rows r =
      settle-Reach w ss (group_batch_results c.results_map c.retry_count_map w.config.max_retries)
        c.error_messages rows r
  process_collected-Reach w ss events (type_error samples) rows r = r

  process_events-Reach :
      (w : Worker) (t : Turn) (events : List OutboxEvent) (rows : Table)
      → Reach start rows
      → Reach start (process_events w t events rows).0
  unfolding process_events finish_turn execute_batch_processing
  process_events-Reach w t [] rows r = r
  process_events-Reach w t (e ∷ events) rows r =
      process_collected-Reach w t.batch (e ∷ events) _ rows r

  -- A turn of a worker is a sequence of statements, whatever fails in it.
  pub poll_turn-Reach :
      (w : Worker) (t : Turn) (rows : Table) → Reach start rows → Reach start (poll_turn w t rows).0
  unfolding poll_turn
  poll_turn-Reach w t rows r =
      let r' = then r (claim t.claim w.config.batch_size) in
      elim (Result-cases (claim_pending_events t.claim w.config.batch_size rows).1) [
        | inl (events, e) ↦ rw (e, poll_turn) (process_events-Reach w t events _ r')
        | inr (e, fails) ↦ rw (fails, poll_turn) r'
      ]

  -- A replay is at most one statement, after what others did since its read.
  pub replay_event-Reach :
      (s t : Session) (between : Table → Table) (id : Text) (rows : Table)
      → Reach start rows
      → Reach start (between rows)
      → Reach start (replay_event s t between id rows).0
  unfolding replay_event
  replay_event-Reach s t between id rows r b = elim (Option-cases s.fault) [
    | inr (e, fails) ↦ rw fails r
    | inl works ↦ elim (Option-cases (find (is_visible_at id) rows)) [
      | inl absent ↦ rw (works, replay_event, absent) r
      | inr (row, present) ↦ elim (Bool-cases (is_replayable row.status)) [
        | inr refused ↦ rw (works, replay_event, present, refused) r
        | inl fits ↦ rw (works, replay_event, present, fits) (then b (replay t id row.status))
      ]
    ]
  ]

  pub replay_events_in_range-Reach :
      (s t : Session) (between : Table → Table) (input : ReplayRangeInput) (rows : Table)
      → Reach start rows
      → Reach start (between rows)
      → Reach start (replay_events_in_range s t between input rows).0
  unfolding replay_events_in_range
  replay_events_in_range-Reach s t between input rows r b = elim (Option-cases s.fault) [
    | inr (e, fails) ↦ rw fails r
    | inl works ↦ elim (Bool-cases (is_empty (range_ids input rows))) [
      | inl nothing ↦ rw (works, nothing) r
      | inr some_ids ↦ rw (works, some_ids) (then b (replay_range t (range_ids input rows)))
    ]
  ]
