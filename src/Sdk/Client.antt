-- ===== src/Sdk/Client.antt =====
-- packages/sdk/src/client.ts: `publish` and `publishBatch`.
pub mod Checks
pub mod Batches
pub mod Limits
pub mod Stored
pub mod Inserted
use outboxy.Base.{
  ℕ, ◌+◌, ◌/◌, Bool, true, false, not, List, [], ◌∷◌, ◌++◌, map, Option, none, some, Text, codes,
  member, is_empty, length, ltb, if◌then◌else◌, ◌or_else◌,
}
use outboxy.Dialect.{
  JsNumber, whole, Value, JsError, Outcome, returned, threw, ◌>>=◌, ◌>>◌, SqlDialect, SqlStatement,
}
use outboxy.Dialect.Render.{plain_error, decimal}
use outboxy.Sdk.{
  Failure, validation_error, ReturnedRow, Unknown, Runtime, translate, safe_stringify,
  validate_fields, validate_optional_key, validate_destination_type, key_field,
}
use outboxy.Sdk.Calls.{
  new_id, new_ids, each_id, columns_for, values_for, run_statement, with_values, refuse_duplicates,
}
use outboxy.Sdk.Chunks.{Answer, bulk_insert}
use outboxy.Sdk.Events.{
  PublishEventInput, OutboxyClient, OutboxyConfig, new_client, ValidatedEvent, text_or, require_url,
  validate_event, validate_events, keys_in_batch, validate_batch,
}

abbrev pub base_columns : List Text
base_columns =
    codes "aggregate_type"
    ∷ codes "aggregate_id"
    ∷ codes "event_type"
    ∷ codes "event_version"
    ∷ codes "payload"
    ∷ codes "headers"
    ∷ codes "destination_url"
    ∷ codes "destination_type"
    ∷ codes "idempotency_key"
    ∷ codes "max_retries"
    ∷ codes "metadata"
    ∷ codes "status"
    ∷ []

-- `key || null`.
abbrev pub key_value : Option Text → Value
key_value none = Value.null
key_value (some key) = if is_empty key then Value.null else Value.text key

unfoldable pub max_events_per_batch : OutboxyClient → ℕ
max_events_per_batch c =
    c.dialect.max_parameters / (if c.dialect.supports_returning then 12 else 13)

module _ {ℓ} {W : Type ℓ} (r : Runtime W) where
  -- `baseValues`: the three texts are made in this order.
  unfoldable pub base_values : ValidatedEvent → Outcome Failure (List Value)
  base_values e = do
    payload ← safe_stringify e.payload (codes "payload")
    headers ← safe_stringify (r.inject e.headers) (codes "headers")
    metadata ← safe_stringify e.metadata (codes "metadata")
    returned (
        Value.text e.aggregate_type
        ∷ Value.text e.aggregate_id
        ∷ Value.text e.event_type
        ∷ Value.number e.event_version
        ∷ payload
        ∷ headers
        ∷ Value.text e.destination_url
        ∷ Value.text e.destination_type
        ∷ key_value e.idempotency_key
        ∷ Value.number e.max_retries
        ∷ metadata
        ∷ Value.text (codes "pending")
        ∷ [])

  -- What the reply to a statement that inserts an event comes to: the id of its row where the database
  -- returns it, else the generated one.
  abbrev pub published_id : Option Text → Outcome JsError (List ReturnedRow) → Outcome Failure Text
  published_id id (threw e) =
      threw (translate (codes "Database connection failed while publishing event") e)
  published_id (some id) (returned rows) = returned id
  published_id none (returned (row ∷ rows)) = returned row.id
  published_id none (returned []) = threw (
      translate (codes "Database connection failed while publishing event")
        (plain_error (codes "INSERT with RETURNING produced no rows — unexpected conflict state")))

  unfoldable pub publish_valid : OutboxyClient → ValidatedEvent → W → W × Outcome Failure Text
  publish_valid c e w =
      let (w', id) = new_id r c.dialect.supports_returning w in
      with_values (base_values e)
        (λ values.
          run_statement r (codes "Database connection failed while publishing event")
            (published_id id)
            (c.dialect.build_insert (record {
              columns = columns_for c.dialect.supports_returning base_columns;
              values = values_for id values;
              generated_id = id;
            })))
        w'

  unfoldable pub publish : OutboxyClient → PublishEventInput → W → W × Outcome Failure Text
  publish c event w =
      with_values
        (validate_event c
          (codes
            "destinationUrl is required (provide in event or set defaultDestinationUrl in config)")
          event)
        (publish_valid c) w

  -- The rows of a bulk insert, made one after another.
  unfoldable pub event_rows :
      List (Option Text) → List ValidatedEvent → Outcome Failure (List (List Value))
  event_rows ids [] = returned []
  event_rows [] (e ∷ events) = do
    values ← base_values e
    rows ← event_rows [] events
    returned (values ∷ rows)
  event_rows (id ∷ ids) (e ∷ events) = do
    values ← base_values e
    rows ← event_rows ids events
    returned (values_for id values ∷ rows)

  -- `supportsReturning ? resultRows.map((row) => row.id) : generatedIds`.
  abbrev pub inserted :
      Option (List Text) → Outcome JsError (List ReturnedRow) → Outcome Failure (List Text)
  inserted ids (threw e) =
      threw (translate (codes "Database connection failed while inserting events") e)
  inserted (some ids) (returned rows) = returned ids
  inserted none (returned rows) = returned (map (λ row. row.id) rows)

  -- `bulkInsert` of a list that needs no chunks.
  unfoldable pub insert_events : OutboxyClient → List ValidatedEvent → W → Answer W Text
  insert_events c events w =
      let (w', ids) = new_ids r c.dialect.supports_returning events w in
      with_values (event_rows (each_id ids) events)
        (λ rows.
          run_statement r (codes "Database connection failed while inserting events") (inserted ids)
            (c.dialect.build_bulk_insert (record {
              columns = columns_for c.dialect.supports_returning base_columns;
              rows = rows;
              generated_ids = ids;
            })))
        w'

  -- `publishBatch`, on fuel for the chunking; `none` is out of fuel.
  unfoldable pub publish_batch :
      OutboxyClient → ℕ → List PublishEventInput → W → Option (Answer W Text)
  publish_batch c fuel events w =
      if is_empty events then some (w, returned []) else elim (validate_batch c events) [
        | threw f ↦ some (w, threw f)
        | returned valid ↦ bulk_insert (insert_events c) (max_events_per_batch c) fuel valid w
      ]
