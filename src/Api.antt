-- ===== src/Api.antt =====
-- packages/api/src/handlers: admin.handlers.ts and events.handlers.ts over the adapter's event
-- service. A handler returns what it sends, or the error that it throws. Dates go out as numbers.
pub mod Replay
pub mod Errors
use outboxy.Base.{ℕ, List, [], ◌∷◌, ◌++◌, Option, none, some, Text, codes}
use outboxy.Schema.{Json, OutboxEvent, EventStatus, DestinationType}
use outboxy.Sql.Update.{Table}
use outboxy.Postgres.Errors.{Session, DatabaseError, Result, ok, err}
use outboxy.Postgres.EventService.{
  ReplayEventResult, ReplayRangeInput, ReplayRangeResult, get_event_by_id, replay_event,
  replay_events_in_range,
}

pub data HandlerError : Type 0 where
  not_found : Text → HandlerError
  invalid_state : Text → HandlerError
  database : DatabaseError → HandlerError

pub data Response {ℓ} (A : Type ℓ) : Type ℓ where
  send : A → Response A
  throw : HandlerError → Response A

abbrev pub status_text : EventStatus → Text
status_text EventStatus.pending = codes "pending"
status_text EventStatus.processing = codes "processing"
status_text EventStatus.succeeded = codes "succeeded"
status_text EventStatus.failed = codes "failed"
status_text EventStatus.dlq = codes "dlq"
status_text EventStatus.cancelled = codes "cancelled"

abbrev pub not_found_message : Text → Text
not_found_message id = codes "Event not found: " ++ id

abbrev pub invalid_state_message : EventStatus → Text
invalid_state_message status =
    codes "Cannot replay event in '"
    ++ status_text status
    ++ codes "' status. Only 'failed' or 'dlq' events can be replayed."

-- The sessions of the statements of a handler, and what other transactions do between the read and
-- the update of a replay, and before the read that explains a refusal.
pub record HandlerSessions : Type 0 where
  pub read : Session
  pub update : Session
  pub explain : Session
  pub before_update : Table → Table
  pub before_explain : Table → Table

-- What is thrown for what `getEventById` finds after a replay that did nothing.
unfoldable pub explain_refusal :
    Text → Table × Result (Option OutboxEvent) → Table × Response ReplayEventResult
explain_refusal id (rows, err e) = (rows, throw (database e))
explain_refusal id (rows, ok none) = (rows, throw (not_found (not_found_message id)))
explain_refusal id (rows, ok (some event)) =
    (rows, throw (invalid_state (invalid_state_message event.status)))

-- The rest of the handler after `replayEvent`.
unfoldable pub finish_replay :
    HandlerSessions
    → Text
    → Table × Result (Option ReplayEventResult)
    → Table × Response ReplayEventResult
unfolding explain_refusal
finish_replay ss id (rows, err e) = (rows, throw (database e))
finish_replay ss id (rows, ok none) =
    explain_refusal id (get_event_by_id ss.explain id (ss.before_explain rows))
finish_replay ss id (rows, ok (some result)) = (rows, send result)

unfoldable pub replay_event_handler :
    HandlerSessions → Text → Table → Table × Response ReplayEventResult
unfolding finish_replay
replay_event_handler ss id rows =
    finish_replay ss id (replay_event ss.read ss.update ss.before_update id rows)

pub record ReplayRangeReply : Type 0 where
  pub replayed_count : ℕ
  pub event_ids : List Text
  pub start_date : ℕ
  pub end_date : ℕ
  pub status : Option EventStatus

unfoldable pub replay_range_handler :
    HandlerSessions → ReplayRangeInput → Table → Table × Response ReplayRangeReply
replay_range_handler ss body rows =
    let (rows', reply) = replay_events_in_range ss.read ss.update ss.before_update body rows in
    elim reply [
      | err e ↦ (rows', throw (database e))
      | ok result ↦ (
        rows',
        send (record {
          replayed_count = result.replayed_count;
          event_ids = result.event_ids;
          start_date = body.start_date;
          end_date = body.end_date;
          status = body.status;
        }),
      )
    ]

-- The body of the reply to `GET /events/:id`.
pub record EventReply : Type 0 where
  pub id : Text
  pub aggregate_type : Text
  pub aggregate_id : Text
  pub event_type : Text
  pub event_version : ℕ
  pub payload : Json
  pub headers : Json
  pub destination_url : Text
  pub destination_type : DestinationType
  pub idempotency_key : Option Text
  pub status : EventStatus
  pub retry_count : ℕ
  pub max_retries : ℕ
  pub next_retry_at : Option ℕ
  pub last_error : Option Text
  pub metadata : Json
  pub created_at : ℕ
  pub updated_at : ℕ
  pub processing_started_at : Option ℕ
  pub processed_at : Option ℕ

unfoldable pub event_reply : OutboxEvent → EventReply
event_reply event = record {
  id = event.id;
  aggregate_type = event.aggregate_type;
  aggregate_id = event.aggregate_id;
  event_type = event.event_type;
  event_version = event.event_version;
  payload = event.payload;
  headers = event.headers;
  destination_url = event.destination_url;
  destination_type = event.destination_type;
  idempotency_key = event.idempotency_key;
  status = event.status;
  retry_count = event.retry_count;
  max_retries = event.max_retries;
  next_retry_at = event.next_retry_at;
  last_error = event.last_error;
  metadata = event.metadata;
  created_at = event.created_at;
  updated_at = event.updated_at;
  processing_started_at = event.processing_started_at;
  processed_at = event.processed_at;
}

-- The rest of the handler after `getEventById`.
abbrev pub event_response : Text → Result (Option OutboxEvent) → Response EventReply
event_response id (err e) = throw (database e)
event_response id (ok none) = throw (not_found (not_found_message id))
event_response id (ok (some event)) = send (event_reply event)

unfoldable pub get_event_status_handler : Session → Text → Table → Table × Response EventReply
unfolding event_reply
get_event_status_handler s id rows =
    let (rows', found) = get_event_by_id s id rows in (rows', event_response id found)
