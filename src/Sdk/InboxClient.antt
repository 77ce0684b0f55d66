-- ===== src/Sdk/InboxClient.antt =====
-- packages/sdk/src/inbox-client.ts: `receive`, `receiveBatch` and `markFailed`.
pub mod Checks
pub mod Found
pub mod Answers
pub mod Inputs
pub mod Repository
use outboxy.Base.{
  ℕ, ◌+◌, ◌/◌, Bool, true, false, List, [], ◌∷◌, ◌++◌, map, Option, none, some, Text, codes,
  text_eq, member, is_empty, substring, Map, get, set, if◌then◌else◌, ◌or_else◌,
}
use outboxy.Schema.{InboxOutcome, InboxResult, max_error_message_length}
use outboxy.Dialect.{
  JsNumber, whole, Value, JsError, Outcome, returned, threw, ◌>>=◌, ◌>>◌, InboxSqlDialect,
  SqlStatement,
}
use outboxy.Dialect.Render.{decimal}
use outboxy.Sdk.{
  Failure, validation_error, ReturnedRow, Unknown, Runtime, translate, safe_stringify,
  validate_fields, validate_idempotency_key, key_field,
}
use outboxy.Sdk.Calls.{
  new_id, new_ids, each_id, columns_for, values_for, run_statement, with_values, refuse_duplicates,
}
use outboxy.Sdk.Chunks.{Answer, bulk_insert}
use outboxy.Sdk.InboxEvents.{
  InboxReceiveEventInput, InboxyClient, ValidatedInboxEvent, validate_inbox_event,
  validate_inbox_events, validate_inbox_batch,
}

-- `INBOX_BASE_COLUMNS`.
abbrev pub inbox_base_columns : List Text
inbox_base_columns =
    codes "idempotency_key"
    ∷ codes "source"
    ∷ codes "aggregate_type"
    ∷ codes "aggregate_id"
    ∷ codes "event_type"
    ∷ codes "event_version"
    ∷ codes "payload"
    ∷ codes "headers"
    ∷ codes "metadata"
    ∷ codes "status"
    ∷ []

-- `source ?? null`.
abbrev pub text_value : Option Text → Value
text_value none = Value.null
text_value (some t) = Value.text t

unfoldable pub inbox_base_values : ValidatedInboxEvent → Outcome Failure (List Value)
inbox_base_values e = do
  payload ← safe_stringify e.payload (codes "payload")
  headers ← safe_stringify e.headers (codes "headers")
  metadata ← safe_stringify e.metadata (codes "metadata")
  returned (
      Value.text e.idempotency_key
      ∷ text_value e.source
      ∷ Value.text e.aggregate_type
      ∷ Value.text e.aggregate_id
      ∷ Value.text e.event_type
      ∷ Value.number e.event_version
      ∷ payload
      ∷ headers
      ∷ metadata
      ∷ Value.text (codes "processed")
      ∷ [])

unfoldable pub inbox_max_events_per_batch : InboxyClient → ℕ
inbox_max_events_per_batch c =
    c.dialect.max_parameters / (if c.dialect.supports_returning then 10 else 11)

abbrev pub receive_message : Text
receive_message = codes "Database connection failed while receiving event"

-- What the reply to the insert of one event comes to, with the generated id if there is one.
abbrev pub received_result :
    Option Text → Outcome JsError (List ReturnedRow) → Outcome Failure InboxResult
received_result id (threw e) = threw (translate receive_message e)
received_result none (returned []) =
    returned (record { event_id = none; status = InboxOutcome.duplicate })
received_result none (returned (row ∷ rows)) =
    returned (record { event_id = some row.id; status = InboxOutcome.processed })
received_result (some id) (returned []) =
    returned (record { event_id = some id; status = InboxOutcome.duplicate })
received_result (some id) (returned (row ∷ rows)) =
    returned (record { event_id = some id; status = InboxOutcome.processed })

-- `new Map(checkRows.map((r) => [r.idempotency_key, r.id]))`, after the entries `m`.
unfoldable pub key_map : Map Text → List ReturnedRow → Map Text
key_map m [] = m
key_map m (row ∷ rows) = key_map (set row.idempotency_key row.id m) rows

-- The result for one event by the id of its row, `inserted` being the ids that the insert returned.
abbrev pub returned_result : List Text → Option Text → InboxResult
returned_result inserted none = record { event_id = none; status = InboxOutcome.duplicate }
returned_result inserted (some id) =
    if is_empty id then record { event_id = none; status = InboxOutcome.duplicate } else record {
      event_id = some id;
      status = (if member id inserted then InboxOutcome.processed else InboxOutcome.duplicate);
    }

-- The same where the id was generated.
abbrev pub generated_result : Text → Option Text → InboxResult
generated_result id none = record { event_id = some id; status = InboxOutcome.duplicate }
generated_result id (some db_id) = record {
  event_id = some db_id;
  status = (if text_eq db_id id then InboxOutcome.processed else InboxOutcome.duplicate);
}

-- The last `events.map` of `bulkInsert`.
unfoldable pub inbox_results :
    List (Option Text) → List Text → Map Text → List ValidatedInboxEvent → List InboxResult
inbox_results ids inserted key_to_id [] = []
inbox_results (some id ∷ ids) inserted key_to_id (e ∷ events) =
    generated_result id (get e.idempotency_key key_to_id)
    ∷ inbox_results ids inserted key_to_id events
inbox_results (none ∷ ids) inserted key_to_id (e ∷ events) =
    returned_result inserted (get e.idempotency_key key_to_id)
    ∷ inbox_results ids inserted key_to_id events
inbox_results [] inserted key_to_id (e ∷ events) =
    returned_result inserted (get e.idempotency_key key_to_id)
    ∷ inbox_results [] inserted key_to_id events

unfoldable pub inbox_rows :
    List (Option Text) → List ValidatedInboxEvent → Outcome Failure (List (List Value))
inbox_rows ids [] = returned []
inbox_rows [] (e ∷ events) = do
  values ← inbox_base_values e
  rows ← inbox_rows [] events
  returned (values ∷ rows)
inbox_rows (id ∷ ids) (e ∷ events) = do
  values ← inbox_base_values e
  rows ← inbox_rows ids events
  returned (values_for id values ∷ rows)

abbrev pub bulk_message : Text
bulk_message = codes "Database connection failed while receiving events"

-- What the reply to the query for the keys comes to.
abbrev pub found_results :
    List (Option Text)
    → List Text
    → List ValidatedInboxEvent
    → Outcome JsError (List ReturnedRow)
    → Outcome Failure (List InboxResult)
found_results ids inserted events (threw e) = threw (translate bulk_message e)
found_results ids inserted events (returned found) =
    returned (inbox_results ids inserted (key_map [] found) events)

module _ {ℓ} {W : Type ℓ} (r : Runtime W) where
  unfoldable pub receive_valid :
      InboxyClient → ValidatedInboxEvent → W → W × Outcome Failure InboxResult
  receive_valid c e w =
      let (w', id) = new_id r c.dialect.supports_returning w in
      with_values (inbox_base_values e)
        (λ values. run_statement r receive_message (received_result id) (
          c.dialect.build_inbox_insert (record {
            columns = columns_for c.dialect.supports_returning inbox_base_columns;
            values = values_for id values;
            generated_id = id;
          })))
        w'

  unfoldable pub receive :
      InboxyClient → InboxReceiveEventInput → W → W × Outcome Failure InboxResult
  receive c event w =
      with_values
        (validate_inbox_event c (codes "idempotencyKey is required for inbox.receive()") event)
        (receive_valid c) w

  -- The second query of `bulkInsert`, after the reply to the insert.
  unfoldable pub find_results :
      InboxyClient
      → Option (List Text)
      → List ValidatedInboxEvent
      → Outcome JsError (List ReturnedRow)
      → W
      → Answer W InboxResult
  find_results c ids events (threw e) w = (w, threw (translate bulk_message e))
  find_results c ids events (returned inserted) w =
      run_statement r bulk_message
        (found_results (each_id ids) (map (λ row. row.id) inserted) events)
        (c.dialect.build_find_by_idempotency_keys (map (λ e. e.idempotency_key) events)) w

  -- The insert is run, and then the query for the keys.
  abbrev pub run_both :
      InboxyClient
      → Option (List Text)
      → List ValidatedInboxEvent
      → Outcome JsError SqlStatement
      → W
      → Answer W InboxResult
  run_both c ids events (threw e) w = (w, threw (translate bulk_message e))
  run_both c ids events (returned st) w =
      let (w', reply) = r.query st.sql st.params w in find_results c ids events reply w'

  -- `bulkInsert` of a list that needs no chunks.
  unfoldable pub insert_inbox_events :
      InboxyClient → List ValidatedInboxEvent → W → Answer W InboxResult
  insert_inbox_events c events w =
      let (w', ids) = new_ids r c.dialect.supports_returning events w in
      with_values (inbox_rows (each_id ids) events)
        (λ rows. run_both c ids events (
          c.dialect.build_inbox_bulk_insert (record {
            columns = columns_for c.dialect.supports_returning inbox_base_columns;
            rows = rows;
            generated_ids = ids;
          })))
        w'

  -- `receiveBatch`, on fuel for the chunking; `none` is out of fuel.
  unfoldable pub receive_batch :
      InboxyClient → ℕ → List InboxReceiveEventInput → W → Option (Answer W InboxResult)
  receive_batch c fuel events w =
      if is_empty events then some (w, returned []) else elim (validate_inbox_batch c events) [
        | threw f ↦ some (w, threw f)
        | returned valid ↦
            bulk_insert (insert_inbox_events c) (inbox_max_events_per_batch c) fuel valid w
      ]

  unfoldable pub mark_failed : InboxyClient → Text → Text → W → W × Outcome Failure (Unit {0})
  mark_failed c event_id error w =
      run_statement r (codes "Database connection failed while marking event as failed")
        (λ reply. elim reply [
          | threw e ↦
              threw (translate (codes "Database connection failed while marking event as failed") e)
          | returned rows ↦ returned tt
        ])
        (returned (c.dialect.build_mark_failed event_id (substring max_error_message_length error)))
        w
