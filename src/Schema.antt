-- ===== src/Schema.antt =====
-- packages/schema: status.ts, constants.ts, types.ts. A timestamp is a number of microseconds, the
-- resolution of the database; `unknown` JSON values are the data type `Json`.
pub mod Events
use outboxy.Base.{ℕ, Text, Bool, true, false, Option}

mutual
  pub data Json : Type 0 where
    null : Json
    bool : Bool → Json
    number : Text → Json
    string : Text → Json
    array : Items → Json
    object : Entries → Json

  pub data Items : Type 0 where
    nil : Items
    cons : Json → Items → Items

  -- The entries of an object in the order of `Object.entries`.
  pub data Entries : Type 0 where
    end : Entries
    entry : Text → Json → Entries → Entries

pub data EventStatus : Type 0 where
  pending processing succeeded failed dlq cancelled : EventStatus

pub data DestinationType : Type 0 where
  http kafka sqs rabbitmq pubsub : DestinationType

pub data InboxEventStatus : Type 0 where
  processed failed : InboxEventStatus

-- `status === s` for the statuses that the code compares with.
abbrev pub is_pending : EventStatus → Bool
is_pending pending = true
is_pending _ = false

abbrev pub is_processing : EventStatus → Bool
is_processing processing = true
is_processing _ = false

abbrev pub is_succeeded : EventStatus → Bool
is_succeeded succeeded = true
is_succeeded _ = false

abbrev pub is_failed : EventStatus → Bool
is_failed EventStatus.failed = true
is_failed _ = false

abbrev pub is_dlq : EventStatus → Bool
is_dlq dlq = true
is_dlq _ = false

abbrev pub is_cancelled : EventStatus → Bool
is_cancelled cancelled = true
is_cancelled _ = false

-- `status = $1`.
abbrev pub same_status : EventStatus → EventStatus → Bool
same_status pending s = is_pending s
same_status processing s = is_processing s
same_status succeeded s = is_succeeded s
same_status EventStatus.failed s = is_failed s
same_status dlq s = is_dlq s
same_status cancelled s = is_cancelled s

abbrev pub max_error_message_length : ℕ
max_error_message_length = 1000

pub record OutboxEvent : Type 0 where
  pub id : Text
  pub aggregate_type : Text
  pub aggregate_id : Text
  pub event_type : Text
  pub event_version : ℕ
  pub payload : Json
  pub headers : Json
  pub destination_url : Text
  pub destination_type : DestinationType
  pub idempotency_key : Option Text
  pub status : EventStatus
  pub retry_count : ℕ
  pub max_retries : ℕ
  pub next_retry_at : Option ℕ
  pub backoff_multiplier : Option Text
  pub last_error : Option Text
  pub error_details : Option Json
  pub created_at : ℕ
  pub updated_at : ℕ
  pub processing_started_at : Option ℕ
  pub processed_at : Option ℕ
  pub metadata : Json
  pub processed_by_worker : Option Text
  pub deleted_at : Option ℕ
  pub created_date : ℕ

pub record OutboxEventRow : Type 0 where
  pub id : Text
  pub aggregate_type : Text
  pub aggregate_id : Text
  pub event_type : Text
  pub event_version : ℕ
  pub payload : Json
  pub headers : Json
  pub destination_url : Text
  pub destination_type : DestinationType
  pub idempotency_key : Option Text
  pub status : EventStatus
  pub retry_count : ℕ
  pub max_retries : ℕ
  pub next_retry_at : Option ℕ
  pub backoff_multiplier : Option Text
  pub last_error : Option Text
  pub error_details : Option Json
  pub created_at : ℕ
  pub updated_at : ℕ
  pub processing_started_at : Option ℕ
  pub processed_at : Option ℕ
  pub metadata : Json
  pub processed_by_worker : Option Text
  pub deleted_at : Option ℕ
  pub created_date : ℕ

unfoldable pub map_row_to_event : OutboxEventRow → OutboxEvent
map_row_to_event row = record {
  id = row.id;
  aggregate_type = row.aggregate_type;
  aggregate_id = row.aggregate_id;
  event_type = row.event_type;
  event_version = row.event_version;
  payload = row.payload;
  headers = row.headers;
  destination_url = row.destination_url;
  destination_type = row.destination_type;
  idempotency_key = row.idempotency_key;
  status = row.status;
  retry_count = row.retry_count;
  max_retries = row.max_retries;
  next_retry_at = row.next_retry_at;
  backoff_multiplier = row.backoff_multiplier;
  last_error = row.last_error;
  error_details = row.error_details;
  created_at = row.created_at;
  updated_at = row.updated_at;
  processing_started_at = row.processing_started_at;
  processed_at = row.processed_at;
  metadata = row.metadata;
  processed_by_worker = row.processed_by_worker;
  deleted_at = row.deleted_at;
  created_date = row.created_date;
}

pub record InboxEventRow : Type 0 where
  pub id : Text
  pub idempotency_key : Text
  pub source : Option Text
  pub aggregate_type : Text
  pub aggregate_id : Text
  pub event_type : Text
  pub event_version : ℕ
  pub payload : Json
  pub headers : Json
  pub metadata : Json
  pub status : InboxEventStatus
  pub error : Option Text
  pub received_at : ℕ
  pub processed_at : Option ℕ

pub data InboxOutcome : Type 0 where
  processed duplicate : InboxOutcome

-- The result of `receive`.
pub record InboxResult : Type 0 where
  pub event_id : Option Text
  pub status : InboxOutcome
