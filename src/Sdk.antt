-- ===== src/Sdk.antt =====
-- packages/sdk/src: errors.ts, types.ts and utilities.ts. What the SDK does not implement itself (the
-- user's adapter and the database behind it, `crypto.randomUUID`, the propagation of OpenTelemetry)
-- acts on a world `W`, as the record `Runtime`.
pub mod Calls
pub mod Chunks
pub mod Events
pub mod Client
pub mod InboxEvents
pub mod InboxClient
use outboxy.Base.{
  ℕ, Bool, true, false, not, ◌&&◌, ◌||◌, List, [], ◌∷◌, ◌++◌, Option, none, some, Text, codes,
  member, is_empty, length, ltb, leb, ◌==◌, if◌then◌else◌, ◌or_else◌,
}
use outboxy.Schema.{Json}
use outboxy.Dialect.{JsNumber, whole, Value, JsError, Outcome, returned, threw}

-- `OutboxyValidationError` with its message and field, `OutboxyConnectionError` with its message and
-- cause, or any other error as it was thrown.
pub data Failure : Type 0 where
  validation_error : Text → Text → Failure
  connection_error : Text → JsError → Failure
  rethrown : JsError → Failure

-- A row that the adapter returns.
pub record ReturnedRow : Type 0 where
  pub id : Text
  pub idempotency_key : Text

-- A value of type `unknown`, as far as `JSON.stringify` tells: JSON, a value that has no JSON text, or
-- one that it throws on.
pub data Unknown : Type 0 where
  json : Json → Unknown
  undefined : Unknown
  unserialisable : Text → Unknown

pub record Runtime {ℓ} (W : Type ℓ) : Type ℓ where
  pub query : Text → List Value → W → W × Outcome JsError (List ReturnedRow)
  pub random_uuid : W → W × Text
  -- `propagation.inject(context.active(), headers)`.
  pub inject : Unknown → Unknown

abbrev pub connection_codes : List Text
connection_codes =
    codes "ECONNREFUSED"
    ∷ codes "ENOTFOUND"
    ∷ codes "ETIMEDOUT"
    ∷ codes "ECONNRESET"
    ∷ codes "57P01"
    ∷ codes "57P02"
    ∷ codes "57P03"
    ∷ codes "08000"
    ∷ codes "08003"
    ∷ codes "08006"
    ∷ []

unfoldable pub is_connection_error : JsError → Bool
is_connection_error e = e.is_error && member (e.code or_else []) connection_codes

-- The `catch` blocks of the clients.
unfoldable pub translate : Text → JsError → Failure
translate message e = if is_connection_error e then connection_error message e else rethrown e

-- `safeStringify(value, field)`.
abbrev pub safe_stringify : Unknown → Text → Outcome Failure Value
safe_stringify (json v) field = returned (Value.serialised v)
safe_stringify undefined field = returned Value.undefined
safe_stringify (unserialisable v) field = threw (
    validation_error
      (codes "Failed to serialize "
        ++ field
        ++ codes ". Ensure it contains no circular references or BigInt values.")
      field)

abbrev pub is_positive_integer : JsNumber → Bool
is_positive_integer (whole n) = leb 1 n
is_positive_integer (JsNumber.below_zero n) = false
is_positive_integer (JsNumber.not_integer t) = false

-- `validateFields`, and `validateInboxFields` likewise: of the event version.
unfoldable pub validate_fields : Option JsNumber → Outcome Failure (Unit {0})
validate_fields none = returned tt
validate_fields (some v) =
    if is_positive_integer v
    then returned tt
    else threw
        (validation_error (codes "eventVersion must be a positive integer") (codes "eventVersion"))

abbrev pub key_field : Text
key_field = codes "idempotencyKey"

-- A character of `[a-zA-Z0-9_\-.:/]`.
abbrev pub is_key_character : ℕ → Bool
is_key_character c =
    (leb b'a' c && leb c b'z')
    || (leb b'A' c && leb c b'Z')
    || (leb b'0' c && leb c b'9')
    || c == b'_'
    || c == b'-'
    || c == b'.'
    || c == b':'
    || c == b'/'

unfoldable pub all_key_characters : Text → Bool
all_key_characters [] = true
all_key_characters (c ∷ key) = is_key_character c && all_key_characters key

-- `/^[a-zA-Z0-9_\-.:/]+$/.test(key)`; without the flag `m`, `$` is the end of the text.
abbrev pub has_valid_format : Text → Bool
has_valid_format key = not (is_empty key) && all_key_characters key

unfoldable pub validate_idempotency_key : Text → Outcome Failure (Unit {0})
validate_idempotency_key key =
    if length key == 0
    then threw (validation_error (codes "Idempotency key cannot be empty") key_field)
    else if ltb 255 (length key)
    then threw (validation_error (codes "Idempotency key cannot exceed 255 characters") key_field)
    else if has_valid_format key
    then returned tt
    else threw (
        validation_error
          (codes
            "Idempotency key must contain only alphanumeric characters, dashes, underscores, dots, colons, and forward slashes")
          key_field)

-- `if (key !== undefined && key !== null) validateIdempotencyKey(key)`.
unfoldable pub validate_optional_key : Option Text → Outcome Failure (Unit {0})
validate_optional_key none = returned tt
validate_optional_key (some key) = validate_idempotency_key key

-- `destinationTypeEnum.options`.
abbrev pub destination_types : List Text
destination_types =
    codes "http" ∷ codes "kafka" ∷ codes "sqs" ∷ codes "rabbitmq" ∷ codes "pubsub" ∷ []

unfoldable pub validate_destination_type : Text → Outcome Failure (Unit {0})
validate_destination_type type =
    if member type destination_types
    then returned tt
    else threw (
        validation_error
          (codes "Invalid destinationType: \""
            ++ type
            ++ codes "\". Must be one of: http, kafka, sqs, rabbitmq, pubsub")
          (codes "destinationType"))
