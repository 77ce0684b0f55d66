-- ===== src/Tests/Data.antt =====
-- Rows, sessions, workers and endpoints for the tests.
use outboxy.Base.{ℕ, true, false, List, [], ◌∷◌, none, some, codes, Map}
use outboxy.Schema.{
  Json, Entries, OutboxEvent, OutboxEventRow, map_row_to_event, EventStatus, DestinationType,
}
use outboxy.Sql.Update.{Table}
use outboxy.Publisher.{PublishResult, resolved}
use outboxy.Postgres.Errors.{Session}
use outboxy.Postgres.EventService.{CreateEventInput}
use outboxy.Worker.Config.{WorkerConfig}
use outboxy.Worker.Execute.{Worker, BatchSessions}
use outboxy.Worker.Loop.{Turn}
use outboxy.Publisher.Http.{World, HttpPublisherConfig, replied}

abbrev pub order_row : OutboxEventRow
order_row = record {
  id = codes "order";
  aggregate_type = codes "Order";
  aggregate_id = codes "7";
  event_type = codes "OrderCreated";
  event_version = 1;
  payload = Json.null;
  headers = Json.object Entries.end;
  destination_url = codes "http://a";
  destination_type = DestinationType.http;
  idempotency_key = some (codes "k");
  status = EventStatus.pending;
  retry_count = 0;
  max_retries = 2;
  next_retry_at = none;
  backoff_multiplier = some (codes "2.00");
  last_error = none;
  error_details = none;
  created_at = 10;
  updated_at = 10;
  processing_started_at = none;
  processed_at = none;
  metadata = Json.object Entries.end;
  processed_by_worker = none;
  deleted_at = none;
  created_date = 0;
}

abbrev pub invoice_row : OutboxEventRow
invoice_row = record order_row {
  id = codes "invoice";
  destination_url = codes "http://b";
  idempotency_key = none;
  status = EventStatus.failed;
  retry_count = 2;
  next_retry_at = some 40;
  created_at = 20;
}

abbrev pub shop_rows : Table
shop_rows = order_row ∷ invoice_row ∷ []

abbrev pub at_time : ℕ → Session
at_time now = record { now = now; locked = λ id. false; fault = none }

abbrev pub locking : ℕ → Session
locking now = record { now = now; locked = λ id. true; fault = none }

abbrev pub shop_config : WorkerConfig
shop_config = record {
  poll_interval_ms = 1000;
  batch_size = 1;
  max_retries = 2;
  backoff_base_ms = 1000;
  backoff_multiplier_num = 2;
  backoff_multiplier_den = 1;
  shutdown_timeout_ms = 30000;
  adaptive_polling_enabled = true;
  adaptive_polling_min_poll_interval_ms = 100;
  adaptive_polling_max_poll_interval_ms = 5000;
  adaptive_polling_busy_threshold = 50;
  adaptive_polling_moderate_threshold = 10;
}

abbrev pub shop_worker : Worker
shop_worker = record { config = shop_config; worker_id = codes "w1"; has_metrics = true }

abbrev pub shop_sessions : ℕ → BatchSessions
shop_sessions now = record { succeeded = at_time now; retried = at_time now; dlq = at_time now }

abbrev pub shop_events : List OutboxEvent
shop_events = map_row_to_event order_row ∷ map_row_to_event invoice_row ∷ []

abbrev pub refusal : PublishResult
refusal = record {
  success = false;
  error = some (codes "HTTP 503");
  retryable = true;
  duration_ms = none;
}

abbrev pub shop_results : Map PublishResult
shop_results =
    (codes "order", record { success = true; error = none; retryable = false; duration_ms = none })
    ∷ (codes "invoice", refusal)
    ∷ []

-- Every endpoint is unavailable.
abbrev pub shop_world : World
shop_world = record {
  request = λ r. record { reply = replied 503 none; duration_ms = 4 };
  digits = λ n. n ∷ [];
}

abbrev pub http_config : HttpPublisherConfig
http_config = record { timeout_ms = 30000; user_agent = codes "Outboxy-Worker/1.0" }

abbrev pub order_input : CreateEventInput
order_input = record {
  aggregate_type = codes "Order";
  aggregate_id = codes "7";
  event_type = codes "OrderCreated";
  event_version = none;
  payload = Json.null;
  headers = none;
  destination_url = codes "http://a";
  destination_type = none;
  idempotency_key = some (codes "k");
  max_retries = some 2;
  metadata = none;
}

-- A turn whose publisher fails every event.
abbrev pub failing_turn : ℕ → Turn
failing_turn now = record {
  stopped = false;
  claim = at_time now;
  publisher = λ events. resolved ((codes "order", refusal) ∷ []);
  batch_duration_ms = 5;
  batch = shop_sessions now;
}
