-- ===== src/Sdk/Events.antt =====
-- packages/sdk/src/client.ts: the client, its events and their checks. The headers and metadata of an
-- event are values of which only `JSON.stringify` matters; `{ ...headers }` is a copy.
use outboxy.Base.{
  ℕ, ◌+◌, List, [], ◌∷◌, ◌++◌, Option, none, some, Text, codes, is_empty, if◌then◌else◌, ◌or_else◌,
}
use outboxy.Dialect.{JsNumber, whole, Outcome, returned, threw, ◌>>=◌, ◌>>◌, SqlDialect}
use outboxy.Dialect.Render.{decimal}
use outboxy.Sdk.{
  Failure, validation_error, Unknown, validate_fields, validate_optional_key,
  validate_destination_type,
}
use outboxy.Sdk.Calls.{refuse_duplicates}

-- Absent fields are `none`.
pub record PublishEventInput : Type 0 where
  pub aggregate_type : Text
  pub aggregate_id : Text
  pub event_type : Text
  pub payload : Unknown
  pub destination_url : Option Text
  pub destination_type : Option Text
  pub idempotency_key : Option Text
  pub max_retries : Option JsNumber
  pub event_version : Option JsNumber
  pub headers : Option Unknown
  pub metadata : Option Unknown

-- The fields of the client, and those of its configuration that the constructor reads.
pub record OutboxyClient : Type 0 where
  pub dialect : SqlDialect
  pub default_destination_url : Option Text
  pub default_destination_type : Text
  pub default_max_retries : JsNumber
  pub default_headers : Unknown
  pub default_metadata : Unknown

pub record OutboxyConfig : Type 0 where
  pub dialect : SqlDialect
  pub default_destination_url : Option Text
  pub default_destination_type : Option Text
  pub default_max_retries : Option JsNumber
  pub default_headers : Option Unknown
  pub default_metadata : Option Unknown

-- The constructor; `no_headers` is `{}`.
unfoldable pub new_client : Unknown → OutboxyConfig → Outcome Failure OutboxyClient
new_client no_headers config = do
  validate_destination_type (config.default_destination_type or_else codes "http")
  returned (record {
    dialect = config.dialect;
    default_destination_url = config.default_destination_url;
    default_destination_type = config.default_destination_type or_else codes "http";
    default_max_retries = config.default_max_retries or_else whole 5;
    default_headers = config.default_headers or_else no_headers;
    default_metadata = config.default_metadata or_else no_headers;
  })

-- The elements of `validatedEvents`.
pub record ValidatedEvent : Type 0 where
  pub aggregate_type : Text
  pub aggregate_id : Text
  pub event_type : Text
  pub event_version : JsNumber
  pub payload : Unknown
  pub headers : Unknown
  pub destination_url : Text
  pub destination_type : Text
  pub idempotency_key : Option Text
  pub max_retries : JsNumber
  pub metadata : Unknown

-- `a || b` of texts that may be missing.
abbrev pub text_or : Option Text → Option Text → Option Text
text_or none b = b
text_or (some a) b = if is_empty a then b else some a

-- A text that is there and not empty, or a validation error of the URL.
abbrev pub require_url : Text → Option Text → Outcome Failure Text
require_url message none = threw (validation_error message (codes "destinationUrl"))
require_url message (some url) =
    if is_empty url then threw (validation_error message (codes "destinationUrl")) else returned url

-- The checks of `publish` and of each event of `publishBatch`, which differ in the message for a
-- missing URL, and the event with its defaults.
unfoldable pub validate_event :
    OutboxyClient → Text → PublishEventInput → Outcome Failure ValidatedEvent
validate_event c message event = do
  url ← require_url message (text_or event.destination_url c.default_destination_url)
  validate_destination_type (event.destination_type or_else c.default_destination_type)
  validate_fields event.event_version
  validate_optional_key event.idempotency_key
  returned (record {
    aggregate_type = event.aggregate_type;
    aggregate_id = event.aggregate_id;
    event_type = event.event_type;
    event_version = event.event_version or_else whole 1;
    payload = event.payload;
    headers = event.headers or_else c.default_headers;
    destination_url = url;
    destination_type = event.destination_type or_else c.default_destination_type;
    idempotency_key = event.idempotency_key;
    max_retries = event.max_retries or_else c.default_max_retries;
    metadata = event.metadata or_else c.default_metadata;
  })

-- `validatedEvents`, from the index of the first.
unfoldable pub validate_events :
    OutboxyClient → ℕ → List PublishEventInput → Outcome Failure (List ValidatedEvent)
validate_events c index [] = returned []
validate_events c index (event ∷ events) = do
  e ←
      validate_event c (codes "destinationUrl is required for event at index " ++ decimal index)
        event
  valid ← validate_events c (index + 1) events
  returned (e ∷ valid)

-- `keysInBatch`: the keys that are there and not empty.
unfoldable pub keys_in_batch : List ValidatedEvent → List Text
keys_in_batch [] = []
keys_in_batch (e ∷ events) =
    let rest = keys_in_batch events in
    elim e.idempotency_key [ none ↦ rest | some key ↦ if is_empty key then rest else key ∷ rest ]

-- All checks of `publishBatch`.
unfoldable pub validate_batch :
    OutboxyClient → List PublishEventInput → Outcome Failure (List ValidatedEvent)
validate_batch c events = do
  valid ← validate_events c 0 events
  refuse_duplicates (keys_in_batch valid)
  returned valid
