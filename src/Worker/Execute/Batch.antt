-- ===== src/Worker/Execute/Batch.antt =====
-- A whole batch, from the publisher's answer to the rows.
use outboxy.Base.{
  ℕ, ◌≡◌, refl, ap, List, Option, none, some, Text, get, Option-cases, inl, inr, ◌∙◌,
}
use outboxy.Schema.{OutboxEvent, OutboxEventRow}
use outboxy.Publisher.{Publication}
use outboxy.Worker.Retry.{RetryDecision, decide_retry}
use outboxy.Worker.Batch.{decision_of}
use outboxy.Worker.Execute.{
  Worker, BatchSessions, Collected, nothing_collected, execute_batch_processing, process_collected,
}
use outboxy.Worker.Execute.Settle.{dispose, decision_at, AllWork, row_at-settle_groups}
use outboxy.Worker.Execute.Collect.{
  result_of, result_of-event, entry_of, Collects, publish_events-map, collect_from-Collects,
  Explained,
}
use outboxy.Schema.Events.{event_at, DistinctIds}
use outboxy.Sql.Update.{Table, row_at, map_option, map_option_ext}

-- The decision on an event of the batch, from what publishing came to for it.
unfoldable pub event_decision : Worker → Publication → ℕ → OutboxEvent → RetryDecision
event_decision w p duration_ms e =
    decide_retry (entry_of (result_of p duration_ms e)) e.retry_count w.config.max_retries

-- What a batch makes of a row, given the event of the batch that has the row's id, if any.
abbrev pub dispose_event :
    Worker → BatchSessions → Publication → ℕ → Option OutboxEvent → OutboxEventRow → OutboxEventRow
dispose_event w ss p duration_ms none r = r
dispose_event w ss p duration_ms (some e) r =
    dispose w ss (result_of p duration_ms e).error (some (event_decision w p duration_ms e)) r

abbrev after_error : Option Text → Option Text
after_error o = elim o [ none ↦ none | some error ↦ some error ]

module _ (w : Worker) (ss : BatchSessions) (p : Publication) (duration_ms : ℕ)
    (events : List OutboxEvent) where
  -- The count that the loop has stored for an event of the batch.
  count_collected :
      (c : Collected) (id : Text) (e : OutboxEvent)
      → Collects w.has_metrics p duration_ms nothing_collected events c
      → event_at id events ≡ some e
      → get id c.retry_count_map ≡ some e.retry_count
  count_collected c id e k present =
      rw (k.counts id, present) (ap (λ x. some x.retry_count) (result_of-event p duration_ms e))

  error_or_none : (o : Option Text) → after_error o ≡ o
  error_or_none none = refl
  error_or_none (some error) = refl

  dispose_collected :
      (c : Collected) (id : Text) (r : OutboxEventRow)
      → Collects w.has_metrics p duration_ms nothing_collected events c
      → dispose w ss
          (get id c.error_messages)
          (decision_at c.results_map c.retry_count_map w.config.max_retries id)
          r
        ≡ dispose_event w ss p duration_ms (event_at id events) r
  unfolding event_decision decision_of get
  dispose_collected c id r k = elim (Option-cases (event_at id events)) [
    | inl absent ↦ rw (k.errors id, k.results id, absent)
    | inr (e, present) ↦ rw (
      k.errors id,
      k.results id,
      present,
      count_collected c id e k present,
      error_or_none (result_of p duration_ms e).error,
    )
  ]

  -- After a batch whose statements all run, each row is what the decision on the event with its id
  -- makes of it, and a row with no event in the batch is as before. The events have distinct ids,
  -- and recording their metrics does not throw.
  pub row_at-execute_batch_processing :
      (id : Text) (rows : Table)
      → AllWork ss
      → DistinctIds events
      → Explained w.has_metrics p duration_ms events
      → row_at id (execute_batch_processing w ss p duration_ms events rows).0
        ≡ map_option (dispose_event w ss p duration_ms (event_at id events)) (row_at id rows)
  unfolding execute_batch_processing
  row_at-execute_batch_processing id rows works distinct explained =
      let (c, run, k) =
        collect_from-Collects w.has_metrics p duration_ms nothing_collected events distinct
          explained in
      rw (publish_events-map p duration_ms events, run, process_collected)
        (row_at-settle_groups w ss works c.error_messages c.results_map c.retry_count_map
            w.config.max_retries id rows (k.unique tt)
          ∙ map_option_ext _ _ (row_at id rows) (λ r. dispose_collected c id r k))
