-- ===== src/Worker/Execute/Outcomes.antt =====
-- Consequences for one event of a batch: that it leaves `processing`, when it does not, and what a
-- failure with no error does to the whole batch.
use outboxy.Base.{
  ℕ, ◌≤◌, ◌<◌, ◌≡◌, refl, ap, Bool, true, false, not, List, [], ◌∷◌, ◌++◌, map, Option, none, some,
  Text, text_eq, find, is_none, arith, Bool-cases, inl, inr, ◌||◌,
}
use outboxy.Schema.{OutboxEvent, OutboxEventRow, is_processing}
use outboxy.Schema.Events.{event_at, DistinctIds}
use outboxy.Sql.Update.{Table, row_at}
use outboxy.Publisher.{Publication}
use outboxy.Worker.Retry.{decide_retry}
use outboxy.Worker.Metrics.{Sample, record_failure}
use outboxy.Worker.Execute.{
  Worker, BatchSessions, no_error_message, Collected, type_error, nothing_collected, collect_maps,
  record_result, collect_from, process_collected, execute_batch_processing, EventProcessingResult,
}
use outboxy.Worker.Execute.Settle.{AllWork}
use outboxy.Worker.Execute.Collect.{
  result_of, publish_events-map, Explained, is_explained, record_result-some,
}
use outboxy.Worker.Execute.Batch.{event_decision, dispose_event, row_at-execute_batch_processing}
use mathlib.Core.Option.{some-injective}

module _ (w : Worker) (ss : BatchSessions) (p : Publication) (duration_ms : ℕ)
    (events : List OutboxEvent) (rows : Table) (id : Text) (e : OutboxEvent)
    (r : OutboxEventRow) where
  abbrev after : Option OutboxEventRow
  after = row_at id (execute_batch_processing w ss p duration_ms events rows).0

  -- If the worker allows no more retries than the event's own row, then every event of the batch
  -- leaves `processing`: whatever the publisher answered, its row is no longer in that status, and
  -- its retries stay within its own limit.
  pub execute_batch-leaves_processing :
      AllWork ss
      → DistinctIds events
      → Explained w.has_metrics p duration_ms events
      → event_at id events ≡ some e
      → row_at id rows ≡ some r
      → e.retry_count ≡ r.retry_count
      → r.retry_count ≤ r.max_retries
      → w.config.max_retries ≤ r.max_retries
      → (r' : OutboxEventRow) × (after ≡ some r')
        × (is_processing r'.status ≡ false)
        × (r'.retry_count ≤ r'.max_retries)
  unfolding event_decision decide_retry
  execute_batch-leaves_processing works distinct explained in_batch in_table same within allows = (
    dispose_event w ss p duration_ms (some e) r,
    rw (
      row_at-execute_batch_processing w ss p duration_ms events id rows works distinct explained,
      in_batch,
      in_table,
    ),
    ground arith,
    ground arith,
  )

  -- If the event's own limit is reached and the worker's is not, then a retryable failure leaves the
  -- row exactly as it was: the event is neither scheduled nor moved to the dead letter queue.
  pub execute_batch-strands :
      AllWork ss
      → DistinctIds events
      → Explained w.has_metrics p duration_ms events
      → event_at id events ≡ some e
      → row_at id rows ≡ some r
      → e.retry_count ≡ r.retry_count
      → r.max_retries ≤ r.retry_count
      → r.retry_count < w.config.max_retries
      → (result_of p duration_ms e).success ≡ false
      → (result_of p duration_ms e).retryable ≡ true
      → after ≡ row_at id rows
  unfolding event_decision decide_retry
  execute_batch-strands works distinct explained in_batch in_table same spent allows fails
        retryable =
      rw
        (
          row_at-execute_batch_processing w ss p duration_ms events id rows works distinct
              explained,
          in_batch,
          in_table,
        )
        (ap some (ground arith))

record_failure-none :
    (metrics : Bool) (e : OutboxEvent) (error : Option Text) (retryable : Bool) (duration_ms : ℕ)
    → (not metrics || not (is_none error)) ≡ false
    → record_failure metrics e error retryable duration_ms ≡ none
unfolding record_failure
record_failure-none false e error retryable duration_ms h = cc
record_failure-none true e none retryable duration_ms h = refl
record_failure-none true e (some error) retryable duration_ms h = cc

record_result-none :
    (metrics : Bool) (r : EventProcessingResult)
    → is_explained metrics r ≡ false
    → record_result metrics r ≡ none
unfolding record_result
record_result-none metrics r h =
    ground (arith, record_failure-none metrics r.event r.error r.retryable r.duration_ms)

later_event :
    (metrics : Bool) (p : Publication) (duration_ms : ℕ) (e' e : OutboxEvent)
    (es : List OutboxEvent) (id : Text)
    → event_at id (e' ∷ es) ≡ some e
    → is_explained metrics (result_of p duration_ms e) ≡ false
    → is_explained metrics (result_of p duration_ms e') ≡ true
    → event_at id es ≡ some e
unfolding find
later_event metrics p duration_ms e' e es id present x fine = elim (Bool-cases (text_eq e'.id id)) [
  | inr other ↦ rw other at present
  | inl here ↦
      let same : e' ≡ e = some-injective e' e (rw here at present) in
      cc (fine, x, ap (λ y. is_explained metrics (result_of p duration_ms y)) same)
]

module _ (metrics : Bool) (p : Publication) (duration_ms : ℕ) where
  collect_from-type_error :
      (c : Collected) (es : List OutboxEvent) (id : Text) (e : OutboxEvent)
      → event_at id es ≡ some e
      → is_explained metrics (result_of p duration_ms e) ≡ false
      → (samples : List Sample) × (collect_from metrics c (map (result_of p duration_ms) es)
          ≡ type_error samples)
  unfolding collect_from find
  collect_from-type_error c [] id e present x = cc
  collect_from-type_error c (e' ∷ es) id e present x =
      elim (Bool-cases (is_explained metrics (result_of p duration_ms e'))) [
        | inr thrown ↦ (
          c.samples,
          rw (record_result-none metrics (result_of p duration_ms e') thrown, collect_from),
        )
        | inl fine ↦
            let (samples, recorded) =
              record_result-some metrics (result_of p duration_ms e') fine in
            let r = result_of p duration_ms e' in
            let c₁ = record (collect_maps r c) { samples = c.samples ++ samples } in
            let (all, run) =
              collect_from-type_error c₁ es id e
                (later_event metrics p duration_ms e' e es id present x fine) x in
            (all, rw (recorded, collect_from) run)
      ]

-- With metrics on, one event that failed with no error in its result (as when the publisher's map
-- leaves the event out) makes the whole batch throw before any statement runs: no row changes,
-- those of the events that were delivered included.
pub execute_batch-aborts :
    (w : Worker) (ss : BatchSessions) (p : Publication) (duration_ms : ℕ)
    (events : List OutboxEvent) (rows : Table) (id : Text) (e : OutboxEvent)
    → w.has_metrics ≡ true
    → event_at id events ≡ some e
    → (result_of p duration_ms e).success ≡ false
    → (result_of p duration_ms e).error ≡ none
    → let (rows', outcome) = execute_batch_processing w ss p duration_ms events rows in
      (rows' ≡ rows) × (outcome.failure ≡ some no_error_message)
unfolding execute_batch_processing
execute_batch-aborts w ss p duration_ms events rows id e metrics present fails silent =
    let (samples, run) =
      collect_from-type_error w.has_metrics p duration_ms nothing_collected events id e present
        (ground arith) in
    rw (publish_events-map p duration_ms events, run, process_collected) (refl, refl)
