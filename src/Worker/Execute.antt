-- ===== src/Worker/Execute.antt =====
-- packages/worker/src/core/worker.ts: `publishEvents` and `executeBatchProcessing`.
pub mod Settle
pub mod Collect
pub mod Batch
pub mod Outcomes
pub mod WithHttp
use outboxy.Base.{
  ℕ, ◌+◌, Bool, true, false, List, [], ◌∷◌, ◌++◌, map, Option, none, some, Text, Map, get, set,
  text_eq, find, is_empty, if◌then◌else◌, ◌or_else◌,
}
use outboxy.Schema.{OutboxEvent}
use outboxy.Sql.Update.{Table}
use outboxy.Publisher.{PublishResult, Publication, resolved, rejected}
use outboxy.Postgres.Errors.{Session, DatabaseError, Result, ok, err}
use outboxy.Postgres.EventRepository.{
  SucceededEvent, BackoffConfig, mark_succeeded, schedule_retry, move_to_dlq,
}
use outboxy.Worker.Config.{WorkerConfig}
use outboxy.Worker.Batch.{BatchGroupingResult, group_batch_results}
use outboxy.Worker.Metrics.{Sample, record_success, record_failure, record_dlq, record_retry}

-- An `OutboxWorker` between two turns of its loop.
pub record Worker : Type 0 where
  pub config : WorkerConfig
  pub worker_id : Text
  pub has_metrics : Bool

pub record EventProcessingResult : Type 0 where
  pub event : OutboxEvent
  pub success : Bool
  pub error : Option Text
  pub retryable : Bool
  pub duration_ms : ℕ

-- `result?.success ?? false` and so on, for what `results.get(event.id)` gives.
unfoldable pub processing_result : ℕ → OutboxEvent → Option PublishResult → EventProcessingResult
processing_result batch_duration_ms e none = record {
  event = e;
  success = false;
  error = none;
  retryable = true;
  duration_ms = batch_duration_ms;
}
processing_result batch_duration_ms e (some result) = record {
  event = e;
  success = result.success;
  error = result.error;
  retryable = result.retryable;
  duration_ms = result.duration_ms or_else batch_duration_ms;
}

-- `publishEvents`, for what the publisher comes to and the time that it took.
unfoldable pub publish_events : Publication → ℕ → List OutboxEvent → List EventProcessingResult
unfolding processing_result
publish_events (resolved results) batch_duration_ms events =
    map (λ e. processing_result batch_duration_ms e (get e.id results)) events
publish_events (rejected error) batch_duration_ms events =
    map
      (λ e. record {
        event = e;
        success = false;
        error = some error;
        retryable = true;
        duration_ms = batch_duration_ms;
      })
      events

-- The three maps that the first loop of `executeBatchProcessing` fills.
pub record Collected : Type 0 where
  pub results_map : Map PublishResult
  pub retry_count_map : Map ℕ
  pub error_messages : Map Text
  pub samples : List Sample

pub data Collection : Type 0 where
  collected : Collected → Collection
  -- The `TypeError` of `recordFailure`, after the samples that were recorded before.
  type_error : List Sample → Collection

-- `if (result.error) { errorMessages.set(...) }`.
abbrev pub set_some {ℓ} : {V : Type ℓ} → Text → Option V → Map V → Map V
set_some id none m = m
set_some id (some v) m = set id v m

-- The loop's body up to the metrics.
unfoldable pub collect_maps : EventProcessingResult → Collected → Collected
collect_maps r c = record c {
  results_map =
      set r.event.id
        (record {
          success = r.success;
          error = r.error;
          retryable = r.retryable;
          duration_ms = none;
        })
        c.results_map;
  retry_count_map = set r.event.id r.event.retry_count c.retry_count_map;
  error_messages = set_some r.event.id r.error c.error_messages;
}

-- The samples of one event; `none` is the `TypeError`.
unfoldable pub record_result : Bool → EventProcessingResult → Option (List Sample)
record_result metrics r =
    if r.success
    then some (record_success metrics r.event r.duration_ms)
    else record_failure metrics r.event r.error r.retryable r.duration_ms

unfoldable pub collect_from : Bool → Collected → List EventProcessingResult → Collection
unfolding collect_maps record_result
collect_from metrics c [] = collected c
collect_from metrics c (r ∷ rs) = elim (record_result metrics r) [
  | none ↦ type_error c.samples
  | some samples ↦
      collect_from metrics (record (collect_maps r c) { samples = c.samples ++ samples }) rs
]

abbrev pub nothing_collected : Collected
nothing_collected = record {
  results_map = [];
  retry_count_map = [];
  error_messages = [];
  samples = [];
}

-- The loops over `grouped.retried` and `grouped.dlq`.
unfoldable pub retry_samples : Bool → List OutboxEvent → List Text → List Sample
retry_samples metrics events [] = []
retry_samples metrics events (id ∷ ids) = elim (find (λ e. text_eq e.id id) events) [
  | none ↦ retry_samples metrics events ids
  | some e ↦ record_retry metrics e (e.retry_count + 1) ++ retry_samples metrics events ids
]

unfoldable pub dlq_samples : Bool → List OutboxEvent → List Text → List Sample
dlq_samples metrics events [] = []
dlq_samples metrics events (id ∷ ids) = elim (find (λ e. text_eq e.id id) events) [
  | none ↦ dlq_samples metrics events ids
  | some e ↦ record_dlq metrics e ++ dlq_samples metrics events ids
]

-- How the three statements of one batch run.
pub record BatchSessions : Type 0 where
  pub succeeded : Session
  pub retried : Session
  pub dlq : Session

pub data Failure : Type 0 where
  no_error_message : Failure
  database : DatabaseError → Failure

pub record BatchOutcome : Type 0 where
  pub samples : List Sample
  pub failure : Option Failure

abbrev pub with_worker : Text → List Text → List SucceededEvent
with_worker worker_id [] = []
with_worker worker_id (id ∷ ids) =
    record { event_id = id; worker_id = worker_id } ∷ with_worker worker_id ids

abbrev pub backoff_of : WorkerConfig → BackoffConfig
backoff_of c = record {
  backoff_base_ms = c.backoff_base_ms;
  multiplier_num = c.backoff_multiplier_num;
  multiplier_den = c.backoff_multiplier_den;
}

-- The error that `Promise.all` rejects with.
abbrev pub first_error : Result (Unit {0}) → Result (Unit {0}) → Result (Unit {0}) → Option Failure
first_error (err e) b c = some (database e)
first_error (ok x) (err e) c = some (database e)
first_error (ok x) (ok y) (err e) = some (database e)
first_error (ok x) (ok y) (ok z) = none

-- The three calls of the `Promise.all`, each for a group that is not empty.
unfoldable pub mark_group : Worker → Session → List Text → Table → Table × Result (Unit {0})
mark_group w s succeeded rows =
    let succeeded_with_worker = with_worker w.worker_id succeeded in
    if is_empty succeeded_with_worker
    then (rows, ok tt)
    else mark_succeeded s succeeded_with_worker rows

unfoldable pub retry_group :
    Worker → Session → List Text → Map Text → Table → Table × Result (Unit {0})
retry_group w s retried error_messages rows =
    if is_empty retried
    then (rows, ok tt)
    else schedule_retry s retried error_messages (backoff_of w.config) rows

unfoldable pub dlq_group : Session → List Text → Map Text → Table → Table × Result (Unit {0})
dlq_group s dlq error_messages rows =
    if is_empty dlq then (rows, ok tt) else move_to_dlq s dlq error_messages rows

-- The `Promise.all`: each statement runs, whatever the others come to.
unfoldable pub settle :
    Worker → BatchSessions → BatchGroupingResult → Map Text → Table → Table × Option Failure
unfolding mark_group retry_group dlq_group
settle w ss grouped error_messages rows =
    let (rows₁, a) = mark_group w ss.succeeded grouped.succeeded rows in
    let (rows₂, b) = retry_group w ss.retried grouped.retried error_messages rows₁ in
    let (rows₃, c) = dlq_group ss.dlq grouped.dlq error_messages rows₂ in (rows₃, first_error a b c)

-- `executeBatchProcessing` after `collect_from`.
unfoldable pub process_collected :
    Worker → BatchSessions → List OutboxEvent → Collection → Table → Table × BatchOutcome
unfolding settle
process_collected w ss events (type_error samples) rows =
    (rows, record { samples = samples; failure = some no_error_message })
process_collected w ss events (collected c) rows =
    let grouped = group_batch_results c.results_map c.retry_count_map w.config.max_retries in
    let (rows', failure) = settle w ss grouped c.error_messages rows in
    (
      rows',
      record {
        samples =
            c.samples
            ++ retry_samples w.has_metrics events grouped.retried
            ++ dlq_samples w.has_metrics events grouped.dlq;
        failure = failure;
      },
    )

unfoldable pub execute_batch_processing :
    Worker → BatchSessions → Publication → ℕ → List OutboxEvent → Table → Table × BatchOutcome
unfolding publish_events collect_from process_collected
execute_batch_processing w ss publication batch_duration_ms events rows =
    process_collected w ss events
      (collect_from w.has_metrics nothing_collected
        (publish_events publication batch_duration_ms events))
      rows
