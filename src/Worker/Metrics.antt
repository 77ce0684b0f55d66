-- ===== src/Worker/Metrics.antt =====
-- packages/worker/src/core/worker.ts: the metrics that a batch records, as the list of the samples,
-- and the classification of errors for them.
use outboxy.Base.{
  ℕ, Bool, true, false, not, ◌||◌, List, [], ◌∷◌, Option, none, some, Text, codes, includes,
  to_lower_case, if◌then◌else◌,
}
use outboxy.Schema.{OutboxEvent, DestinationType}

pub data FailureReason : Type 0 where
  timeout connection_error client_error server_error kafka_producer dlq unknown : FailureReason

-- The reasons `4xx` and `5xx` are `client_error` and `server_error`.
unfoldable pub categorize_error : Text → Bool → FailureReason
categorize_error error retryable =
    let message = to_lower_case error in
    if includes (codes "timeout") message || includes (codes "timed out") message
    then timeout
    else if includes (codes "econnrefused") message
        || includes (codes "enotfound") message
        || includes (codes "connection") message
    then connection_error
    else if includes (codes "status 4") message || includes (codes "status: 4") message
    then client_error
    else if includes (codes "status 5") message || includes (codes "status: 5") message
    then server_error
    else if includes (codes "kafka") message
    then kafka_producer
    else if not retryable
    then dlq
    else unknown

-- The labels `destination_type`, `event_type` and `aggregate_type`.
pub record Labels : Type 0 where
  pub destination_type : DestinationType
  pub event_type : Text
  pub aggregate_type : Text

abbrev pub labels_of : OutboxEvent → Labels
labels_of e = record {
  destination_type = e.destination_type;
  event_type = e.event_type;
  aggregate_type = e.aggregate_type;
}

-- One update of a metric, less the label `worker_id`, which is the worker's own. A duration stands
-- under `destination_type`, `event_type` and whether the event succeeded, in milliseconds.
pub data Sample : Type 0 where
  events_published : Labels → Sample
  events_failed : Labels → FailureReason → Sample
  events_retried : Labels → ℕ → Sample
  events_dlq : Labels → Sample
  processing_duration : DestinationType → Text → Bool → ℕ → Sample

-- `metrics` says whether the worker has metrics.
unfoldable pub record_success : Bool → OutboxEvent → ℕ → List Sample
record_success metrics e duration_ms =
    if metrics
    then events_published (labels_of e)
      ∷ processing_duration e.destination_type e.event_type true duration_ms
      ∷ []
    else []

-- `none` is the `TypeError` of `error.message` where there is no error.
unfoldable pub record_failure : Bool → OutboxEvent → Option Text → Bool → ℕ → Option (List Sample)
record_failure false e error retryable duration_ms = some []
record_failure true e none retryable duration_ms = none
record_failure true e (some error) retryable duration_ms = some (
    events_failed (labels_of e) (categorize_error error retryable)
    ∷ processing_duration e.destination_type e.event_type false duration_ms
    ∷ [])

unfoldable pub record_dlq : Bool → OutboxEvent → List Sample
record_dlq metrics e = if metrics then events_dlq (labels_of e) ∷ [] else []

unfoldable pub record_retry : Bool → OutboxEvent → ℕ → List Sample
record_retry metrics e retry_count =
    if metrics then events_retried (labels_of e) retry_count ∷ [] else []
