-- ===== src/Postgres/Inbox.antt =====
-- packages/db-adapter-postgres/src/repositories/pg-inbox.repository.ts. The ids that the database
-- generates are arguments: one for each row of a `VALUES` list.
pub mod Receive
pub mod Batch
use outboxy.Base.{
  ℕ, Bool, not, List, [], ◌∷◌, ◌++◌, Option, none, some, Text, codes, Map, set, get, text_eq, find,
  member, is_none, is_empty, substring, if◌then◌else◌, ◌or_else◌,
}
use outboxy.Schema.{
  Json, Entries, InboxEventRow, InboxEventStatus, InboxOutcome, InboxResult,
  max_error_message_length,
}
use outboxy.Postgres.Errors.{
  Session, PostgresError, Result, ok, err, map_postgres_error, native, with_error_mapping,
}
use outboxy.Postgres.Maintenance.{cleanup_processed_inbox_events}

abbrev pub InboxTable : Type 0
InboxTable = List InboxEventRow

-- Absent fields are `none`.
pub record InboxEventInput : Type 0 where
  pub idempotency_key : Text
  pub aggregate_type : Text
  pub aggregate_id : Text
  pub event_type : Text
  pub payload : Json
  pub source : Option Text
  pub event_version : Option ℕ
  pub headers : Option Json
  pub metadata : Option Json

-- The inserted row: the columns of the statement, and the defaults of the table for the others.
unfoldable pub inbox_row : ℕ → Text → InboxEventInput → InboxEventRow
inbox_row now id event = record {
  id = id;
  idempotency_key = event.idempotency_key;
  source = event.source;
  aggregate_type = event.aggregate_type;
  aggregate_id = event.aggregate_id;
  event_type = event.event_type;
  event_version = event.event_version or_else 1;
  payload = event.payload;
  headers = event.headers or_else Json.object Entries.end;
  metadata = event.metadata or_else Json.object Entries.end;
  status = InboxEventStatus.processed;
  error = none;
  received_at = now;
  processed_at = some now;
}

-- The row under a key, by the unique index.
abbrev pub row_for : Text → InboxTable → Option InboxEventRow
row_for key rows = find (λ r. text_eq r.idempotency_key key) rows

-- `INSERT ... ON CONFLICT (idempotency_key) DO NOTHING`, one row.
unfoldable pub insert_unless_present : ℕ → Text → InboxEventInput → InboxTable → InboxTable
unfolding inbox_row
insert_unless_present now id event rows =
    if is_none (row_for event.idempotency_key rows)
    then rows ++ inbox_row now id event ∷ []
    else rows

unfoldable pub receive :
    Session → Text → InboxEventInput → InboxTable → InboxTable × Result InboxResult
unfolding insert_unless_present with_error_mapping
receive s id event rows = with_error_mapping s rows (
  insert_unless_present s.now id event rows,
  (if is_none (row_for event.idempotency_key rows)
      then record { event_id = some id; status = InboxOutcome.processed }
      else record { event_id = none; status = InboxOutcome.duplicate }),
)

-- The rows of a `VALUES` list one after another, a row that an earlier one conflicts with included.
unfoldable pub insert_all : ℕ → List (Text × InboxEventInput) → InboxTable → InboxTable
unfolding insert_unless_present
insert_all now [] rows = rows
insert_all now ((id, event) ∷ events) rows =
    insert_all now events (insert_unless_present now id event rows)

-- `RETURNING id`.
unfoldable pub inserted_ids : ℕ → List (Text × InboxEventInput) → InboxTable → List Text
unfolding insert_unless_present
inserted_ids now [] rows = []
inserted_ids now ((id, event) ∷ events) rows =
    let rest = inserted_ids now events (insert_unless_present now id event rows) in
    if is_none (row_for event.idempotency_key rows) then id ∷ rest else rest

-- The error for a key that the second query does not find.
abbrev pub not_found_error : Text → PostgresError
not_found_error key = record {
  code = none;
  constraint = none;
  message =
      codes "Inbox event with idempotency_key '"
      ++ key
      ++ codes "' not found after INSERT ON CONFLICT DO NOTHING";
}

abbrev pub batch_result : List Text → Text → InboxResult
batch_result inserted id = record {
  event_id = some id;
  status = (if member id inserted then InboxOutcome.processed else InboxOutcome.duplicate);
}

abbrev pub prepend : InboxResult → Result (List InboxResult) → Result (List InboxResult)
prepend r (err e) = err e
prepend r (ok rs) = ok (r ∷ rs)

-- The last loop of `receiveBatch`, over the table that the second query reads.
unfoldable pub batch_results :
    List Text → InboxTable → List (Text × InboxEventInput) → Result (List InboxResult)
batch_results inserted rows [] = ok []
batch_results inserted rows ((id, event) ∷ events) =
    let rest = batch_results inserted rows events in
    elim (row_for event.idempotency_key rows) [
      | none ↦ err (map_postgres_error (native (not_found_error event.idempotency_key)))
      | some r ↦
          if is_empty r.id
          then err (map_postgres_error (native (not_found_error event.idempotency_key)))
          else prepend (batch_result inserted r.id) rest
    ]

-- The two statements of a batch run in the caller's transaction, the insert in session `s`, the
-- query in `t`; the query sees the rows of the insert.
unfoldable pub receive_batch :
    Session
    → Session
    → List (Text × InboxEventInput)
    → InboxTable
    → InboxTable × Result (List InboxResult)
unfolding insert_all inserted_ids batch_results
receive_batch s t events rows = if is_empty events then (rows, ok []) else elim s.fault [
  | some e ↦ (rows, err (map_postgres_error (native e)))
  | none ↦ elim t.fault [
    | some e ↦ (insert_all s.now events rows, err (map_postgres_error (native e)))
    | none ↦ (
      insert_all s.now events rows,
      batch_results (inserted_ids s.now events rows) (insert_all s.now events rows) events,
    )
  ]
]

unfoldable pub set_failed : ℕ → Text → InboxEventRow → InboxEventRow
set_failed now error r = record r {
  status = InboxEventStatus.failed;
  error = some (substring max_error_message_length error);
  processed_at = some now;
}

-- `UPDATE ... WHERE id = $1`.
unfoldable pub fail_rows : ℕ → Text → Text → InboxTable → InboxTable
unfolding set_failed
fail_rows now id error [] = []
fail_rows now id error (r ∷ rows) =
    (if text_eq r.id id then set_failed now error r else r) ∷ fail_rows now id error rows

unfoldable pub mark_failed : Session → Text → Text → InboxTable → InboxTable × Result (Unit {0})
unfolding fail_rows with_error_mapping
mark_failed s id error rows = with_error_mapping s rows (fail_rows s.now id error rows, tt)

-- The statement is that of the maintenance.
abbrev pub cleanup_processed_events : Session → ℕ → InboxTable → InboxTable × Result ℕ
cleanup_processed_events s retention_days rows =
    cleanup_processed_inbox_events s retention_days rows
