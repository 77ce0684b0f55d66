-- ===== src/Postgres/EventService.antt =====
-- packages/db-adapter-postgres/src/repositories/pg-event.service.ts.
pub mod Keys
pub mod Replay
use outboxy.Base.{
  ℕ, ◌*◌, ◌/◌, Bool, true, false, not, ◌&&◌, ◌||◌, List, [], ◌∷◌, ◌++◌, Option, none, some, Text,
  codes, text_eq, option_text_eq, leb, if◌then◌else◌, ◌or_else◌, is_none, is_empty, length, take,
  select, find, member,
}
use outboxy.Schema.{
  Json, Entries, OutboxEvent, OutboxEventRow, map_row_to_event, EventStatus, DestinationType,
  is_succeeded, is_failed, is_dlq, dlq, same_status,
}
use outboxy.Sql.Update.{Table, update_where, returning, ids}
use outboxy.Postgres.Errors.{
  Session, Result, ok, err, PostgresError, map_postgres_error, native, with_error_mapping,
}

-- Absent fields are `none`.
pub record CreateEventInput : Type 0 where
  pub aggregate_type : Text
  pub aggregate_id : Text
  pub event_type : Text
  pub event_version : Option ℕ
  pub payload : Json
  pub headers : Option Json
  pub destination_url : Text
  pub destination_type : Option DestinationType
  pub idempotency_key : Option Text
  pub max_retries : Option ℕ
  pub metadata : Option Json

pub record EventServiceResult : Type 0 where
  pub id : Text
  pub status : EventStatus
  pub created_at : ℕ

pub record ReplayEventResult : Type 0 where
  pub id : Text
  pub previous_status : EventStatus
  pub new_status : EventStatus
  pub replayed_at : ℕ

pub record ReplayRangeInput : Type 0 where
  pub start_date : ℕ
  pub end_date : ℕ
  pub status : Option EventStatus
  pub aggregate_type : Option Text
  pub limit : Option ℕ

pub record ReplayRangeResult : Type 0 where
  pub replayed_count : ℕ
  pub event_ids : List Text

-- A day of `created_date`, in microseconds.
abbrev start_of_day : ℕ → ℕ
start_of_day t = t / 86400000000 * 86400000000

-- The inserted row: the columns of the statement, and the defaults of the table for the others.
unfoldable pub new_row : ℕ → Text → CreateEventInput → OutboxEventRow
new_row now id input = record {
  id = id;
  aggregate_type = input.aggregate_type;
  aggregate_id = input.aggregate_id;
  event_type = input.event_type;
  event_version = input.event_version or_else 1;
  payload = input.payload;
  headers = input.headers or_else Json.object Entries.end;
  destination_url = input.destination_url;
  destination_type = input.destination_type or_else DestinationType.http;
  idempotency_key = input.idempotency_key;
  status = EventStatus.pending;
  retry_count = 0;
  max_retries = input.max_retries or_else 5;
  next_retry_at = none;
  backoff_multiplier = some (codes "2.00");
  last_error = none;
  error_details = none;
  created_at = now;
  updated_at = now;
  processing_started_at = none;
  processed_at = none;
  metadata = input.metadata or_else Json.object Entries.end;
  processed_by_worker = none;
  deleted_at = none;
  created_date = start_of_day now;
}

-- Rows that the unique index on `idempotency_key` holds under a key.
unfoldable pub holds_key : Option Text → OutboxEventRow → Bool
holds_key none r = false
holds_key (some k) r = option_text_eq r.idempotency_key k && not (is_succeeded r.status)

unfoldable pub unique_violation : PostgresError
unique_violation = record {
  code = some (codes "23505");
  constraint = some (codes "idx_outbox_idempotency");
  message = codes "duplicate key value violates unique constraint \"idx_outbox_idempotency\"";
}

-- `id` is what `crypto.randomUUID()` returns. An insert that the unique index refuses throws.
unfoldable pub create_event :
    Session → Text → CreateEventInput → Table → Table × Result EventServiceResult
unfolding new_row holds_key unique_violation with_error_mapping
create_event s id input rows =
    if is_none (find (holds_key input.idempotency_key) rows)
    then with_error_mapping s rows (
      rows ++ new_row s.now id input ∷ [],
      record { id = id; status = EventStatus.pending; created_at = s.now },
    )
    else (rows, err (map_postgres_error (native (s.fault or_else unique_violation))))

abbrev pub is_visible_at : Text → OutboxEventRow → Bool
is_visible_at id r = text_eq r.id id && is_none r.deleted_at

abbrev pub event_of_row : Option OutboxEventRow → Option OutboxEvent
event_of_row none = none
event_of_row (some row) = some (map_row_to_event row)

unfoldable pub get_event_by_id : Session → Text → Table → Table × Result (Option OutboxEvent)
unfolding with_error_mapping
get_event_by_id s id rows =
    with_error_mapping s rows (rows, event_of_row (find (is_visible_at id) rows))

abbrev pub result_of_row : Option OutboxEventRow → Option EventServiceResult
result_of_row none = none
result_of_row (some row) =
    some (record { id = row.id; status = row.status; created_at = row.created_at })

unfoldable pub find_by_idempotency_key :
    Session → Text → Table → Table × Result (Option EventServiceResult)
unfolding with_error_mapping
find_by_idempotency_key s key rows = with_error_mapping s rows (
  rows,
  result_of_row (
      find
        (λ r.
          option_text_eq r.idempotency_key key
          && not (is_succeeded r.status)
          && is_none r.deleted_at)
        rows),
)

-- `SET status = 'pending', retry_count = 0, ...`.
unfoldable pub reset : ℕ → OutboxEventRow → OutboxEventRow
reset now r = record r {
  status = EventStatus.pending;
  retry_count = 0;
  next_retry_at = none;
  last_error = none;
  error_details = none;
  processing_started_at = none;
  processed_at = none;
  updated_at = now;
}

abbrev pub is_replayable : EventStatus → Bool
is_replayable s = is_failed s || is_dlq s

-- The `WHERE` clause of the update of `replayEvent`.
abbrev pub is_replayable_at : Text → OutboxEventRow → Bool
is_replayable_at id r = text_eq r.id id && is_replayable r.status && is_none r.deleted_at

-- The second statement of `replayEvent`, once the first has read `previous_status`. `new Date()` is
-- taken to be the time of the statement.
unfoldable pub replay_update :
    Session → Text → EventStatus → Table → Table × Result (Option ReplayEventResult)
unfolding reset with_error_mapping
replay_update s id previous_status rows = with_error_mapping s rows (
  update_where (is_replayable_at id) (reset s.now) rows,
  (if is_empty (returning (is_replayable_at id) (reset s.now) rows)
      then none
      else some (record {
        id = id;
        previous_status = previous_status;
        new_status = EventStatus.pending;
        replayed_at = s.now;
      })),
)

-- Two statements: the read in session `s`, the update in `t`. What other transactions do between
-- them is a function of the table.
unfoldable pub replay_event :
    Session → Session → (Table → Table) → Text → Table → Table × Result (Option ReplayEventResult)
unfolding replay_update
replay_event s t between id rows = elim s.fault [
  | some e ↦ (rows, err (map_postgres_error (native e)))
  | none ↦ elim (find (is_visible_at id) rows) [
    | none ↦ (rows, ok none)
    | some row ↦
        if is_replayable row.status
        then replay_update t id row.status (between rows)
        else (rows, ok none)
  ]
]

-- `if (input.aggregateType)` adds a condition: neither an absent nor an empty type does.
abbrev pub fits_type : Option Text → OutboxEventRow → Bool
fits_type none r = true
fits_type (some t) r = is_empty t || text_eq r.aggregate_type t

unfoldable pub is_in_range : ReplayRangeInput → OutboxEventRow → Bool
is_in_range input r =
    same_status (input.status or_else dlq) r.status
    && leb input.start_date r.created_at
    && leb r.created_at input.end_date
    && is_none r.deleted_at
    && fits_type input.aggregate_type r

unfoldable pub range_ids : ReplayRangeInput → Table → List Text
unfolding is_in_range
range_ids input rows = ids (take (input.limit or_else 100) (select (is_in_range input) rows))

unfoldable pub replay_range_update : Session → List Text → Table → Table × Result ReplayRangeResult
unfolding reset with_error_mapping
replay_range_update s event_ids rows =
    let replayed = returning (λ r. member r.id event_ids) (reset s.now) rows in
    with_error_mapping s rows (
      update_where (λ r. member r.id event_ids) (reset s.now) rows,
      record { replayed_count = length replayed; event_ids = ids replayed },
    )

-- Two statements, as in `replay_event`.
unfoldable pub replay_events_in_range :
    Session
    → Session
    → (Table → Table)
    → ReplayRangeInput
    → Table
    → Table × Result ReplayRangeResult
unfolding range_ids replay_range_update
replay_events_in_range s t between input rows = elim s.fault [
  | some e ↦ (rows, err (map_postgres_error (native e)))
  | none ↦
      if is_empty (range_ids input rows)
      then (rows, ok (record { replayed_count = 0; event_ids = [] }))
      else replay_range_update t (range_ids input rows) (between rows)
]
