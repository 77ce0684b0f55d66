-- ===== src/Sdk/InboxEvents.antt =====
-- packages/sdk/src/inbox-client.ts and inbox-types.ts: the client, its events and their checks.
use outboxy.Base.{
  ℕ, ◌+◌, List, [], ◌∷◌, ◌++◌, map, Option, Text, codes, is_empty, if◌then◌else◌, ◌or_else◌,
}
use outboxy.Dialect.{JsNumber, whole, Outcome, returned, threw, ◌>>=◌, ◌>>◌, InboxSqlDialect}
use outboxy.Dialect.Render.{decimal}
use outboxy.Sdk.{
  Failure, validation_error, Unknown, validate_fields, validate_idempotency_key, key_field,
}
use outboxy.Sdk.Calls.{refuse_duplicates}

-- Absent fields are `none`.
pub record InboxReceiveEventInput : Type 0 where
  pub idempotency_key : Text
  pub aggregate_type : Text
  pub aggregate_id : Text
  pub event_type : Text
  pub payload : Unknown
  pub source : Option Text
  pub event_version : Option JsNumber
  pub headers : Option Unknown
  pub metadata : Option Unknown

pub record InboxyClient : Type 0 where
  pub dialect : InboxSqlDialect
  pub default_headers : Unknown
  pub default_metadata : Unknown

-- The elements of `validatedEvents`.
pub record ValidatedInboxEvent : Type 0 where
  pub idempotency_key : Text
  pub aggregate_type : Text
  pub aggregate_id : Text
  pub event_type : Text
  pub event_version : JsNumber
  pub payload : Unknown
  pub source : Option Text
  pub headers : Unknown
  pub metadata : Unknown

-- The checks of `receive` and of each event of `receiveBatch`, which differ in the message for an
-- empty key, and the event with its defaults.
unfoldable pub validate_inbox_event :
    InboxyClient → Text → InboxReceiveEventInput → Outcome Failure ValidatedInboxEvent
validate_inbox_event c message event = do
  (if is_empty event.idempotency_key
      then threw (validation_error message key_field)
      else returned tt)
  validate_idempotency_key event.idempotency_key
  validate_fields event.event_version
  returned (record {
    idempotency_key = event.idempotency_key;
    aggregate_type = event.aggregate_type;
    aggregate_id = event.aggregate_id;
    event_type = event.event_type;
    event_version = event.event_version or_else whole 1;
    payload = event.payload;
    source = event.source;
    headers = event.headers or_else c.default_headers;
    metadata = event.metadata or_else c.default_metadata;
  })

unfoldable pub validate_inbox_events :
    InboxyClient → ℕ → List InboxReceiveEventInput → Outcome Failure (List ValidatedInboxEvent)
validate_inbox_events c index [] = returned []
validate_inbox_events c index (event ∷ events) = do
  e ←
      validate_inbox_event c
        (codes "idempotencyKey is required for event at index " ++ decimal index) event
  valid ← validate_inbox_events c (index + 1) events
  returned (e ∷ valid)

-- All checks of `receiveBatch`.
unfoldable pub validate_inbox_batch :
    InboxyClient → List InboxReceiveEventInput → Outcome Failure (List ValidatedInboxEvent)
validate_inbox_batch c events = do
  valid ← validate_inbox_events c 0 events
  refuse_duplicates (map (λ e. e.idempotency_key) valid)
  returned valid
