-- ===== src/Worker/Execute/WithHttp.antt =====
-- The worker with the HTTP publisher: from the response of an endpoint to the row.
use outboxy.Base.{
  ℕ, ◌≡◌, refl, ◌∙◌, Bool, true, not, ◌||◌, List, some, Text, All-imp, is_none, arith,
}
use outboxy.Schema.{OutboxEvent}
use outboxy.Schema.Events.{event_at, DistinctIds, event_at_self, event_at-id}
use outboxy.Sql.Update.{Table, row_at, map_option, map_option_ext}
use outboxy.Publisher.{PublishResult}
use outboxy.Publisher.Groups.{group_of}
use outboxy.Publisher.Http.{World, HttpPublisherConfig, publish, Response}
use outboxy.Publisher.Http.Delivery.{
  get-published, outcome_for, outcome_in-error, response_for, outcome_in,
}
use outboxy.Worker.Retry.{decide_retry}
use outboxy.Worker.Execute.{Worker, BatchSessions, execute_batch_processing, processing_result}
use outboxy.Worker.Execute.Settle.{AllWork, dispose}
use outboxy.Worker.Execute.Collect.{Explained, is_explained, result_of}
use outboxy.Worker.Execute.Batch.{event_decision, row_at-execute_batch_processing}
use mathlib.Core.Path.{subst, sym}

explained :
    (metrics : Bool) (e : OutboxEvent) (response : Response) (world : World)
    → (not metrics
        || (outcome_in world response.reply response.duration_ms e.id).success
        || not (is_none (outcome_in world response.reply response.duration_ms e.id).error))
      ≡ true
explained metrics e response world =
    ground (arith, outcome_in-error world response.reply response.duration_ms e.id)

module _ (world : World) (config : HttpPublisherConfig) (events : List OutboxEvent) (d : ℕ) where
  -- What the endpoint's response means for an event of the batch.
  abbrev pub answer_of : OutboxEvent → PublishResult
  answer_of e =
      outcome_for world config e.destination_url
        (group_of (λ e. e.destination_url) e.destination_url events) e.id

  result_of-publish :
      (e : OutboxEvent)
      → DistinctIds events
      → event_at e.id events ≡ some e
      → result_of (publish world config events) d e ≡ processing_result d e (some (answer_of e))
  unfolding result_of
  result_of-publish e distinct here =
      let (resolves, answered) = get-published world config e.id events e distinct here in
      rw (resolves, result_of, answered) refl

  -- With the HTTP publisher, recording the metrics of a batch never throws: every failure that it
  -- answers with carries an error. The events have distinct ids.
  pub publish-Explained :
      (metrics : Bool)
      → DistinctIds events
      → Explained metrics (publish world config events) d events
  unfolding processing_result
  publish-Explained metrics distinct =
      All-imp (λ e. event_at e.id events ≡ some e)
        (λ e. is_explained metrics (result_of (publish world config events) d e) ≡ true)
        (λ e here. rw (result_of-publish e distinct here) (
          explained metrics e
            (response_for world config e.destination_url
              (group_of (λ e. e.destination_url) e.destination_url events))
            world))
        events (event_at_self events distinct)

  module _ (w : Worker) (ss : BatchSessions) (rows : Table) (id : Text) (e : OutboxEvent) where
    -- With the HTTP publisher, after a batch whose statements all run, the row of an event is
    -- disposed of by what the response of its own endpoint says about this event, whatever the
    -- other endpoints answer. The events have distinct ids.
    pub row_at-http_batch :
        AllWork ss
        → DistinctIds events
        → event_at id events ≡ some e
        → row_at id (execute_batch_processing w ss (publish world config events) d events rows).0
          ≡ map_option
              (dispose w ss
                (answer_of e).error
                (some (decide_retry (answer_of e) e.retry_count w.config.max_retries)))
              (row_at id rows)
    unfolding event_decision processing_result decide_retry
    row_at-http_batch works distinct here =
        row_at-execute_batch_processing w ss (publish world config events) d events id rows works
          distinct (publish-Explained w.has_metrics distinct)
        ∙ map_option_ext _ _ (row_at id rows) (λ r.
          rw
            (
              here,
              result_of-publish e distinct
                  (subst (λ k. event_at k events ≡ some e) (sym (event_at-id id events here)) here),
            )
            refl)
