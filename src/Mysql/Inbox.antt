-- ===== src/Mysql/Inbox.antt =====
-- packages/db-adapter-mysql/src/repositories/mysql-inbox.repository.ts. The ids that the adapter
-- generates are arguments, new to the table; `collation` is that of Mysql.EventService.
pub mod Keys
pub mod Batch
use outboxy.Base.{
  ℕ, Bool, true, false, not, List, [], ◌∷◌, ◌++◌, map, Option, none, some, Text, codes, Map, get,
  text_eq, find, member, is_none, is_empty, if◌then◌else◌,
}
use outboxy.Schema.{InboxEventRow, InboxOutcome, InboxResult}
use outboxy.Postgres.Errors.{Result, ok, err}
use outboxy.Postgres.Inbox.{InboxTable, InboxEventInput, inbox_row, prepend, fail_rows}
use outboxy.Mysql.Errors.{MysqlError, MysqlSession, map_mysql_error, with_mysql_errors}
use outboxy.Mysql.Maintenance.{cleanup_processed_inbox_events}

module _ (collation : Text → Text) where
  -- The row that the unique index holds under a key.
  abbrev pub row_like : Text → InboxTable → Option InboxEventRow
  row_like key rows = find (λ r. text_eq (collation r.idempotency_key) (collation key)) rows

  -- `INSERT IGNORE` of one row.
  unfoldable pub insert_ignore : ℕ → Text → InboxEventInput → InboxTable → InboxTable
  insert_ignore now id event rows =
      if is_none (row_like event.idempotency_key rows)
      then rows ++ inbox_row now id event ∷ []
      else rows

  unfoldable pub receive :
      MysqlSession → Text → InboxEventInput → InboxTable → InboxTable × Result InboxResult
  receive s id event rows = with_mysql_errors s rows (
    insert_ignore s.now id event rows,
    (if is_none (row_like event.idempotency_key rows)
        then record { event_id = some id; status = InboxOutcome.processed }
        else record { event_id = none; status = InboxOutcome.duplicate }),
  )

  -- The rows of a `VALUES` list one after another.
  unfoldable pub insert_all_ignore : ℕ → List (Text × InboxEventInput) → InboxTable → InboxTable
  insert_all_ignore now [] rows = rows
  insert_all_ignore now ((id, event) ∷ events) rows =
      insert_all_ignore now events (insert_ignore now id event rows)

  -- `WHERE idempotency_key IN (keys)`.
  unfoldable pub is_like_one : List Text → InboxEventRow → Bool
  is_like_one [] r = false
  is_like_one (key ∷ keys) r =
      if text_eq (collation r.idempotency_key) (collation key) then true else is_like_one keys r

  -- `keyToId.get(key)`: the key of a row that the query finds must be the event's key itself. The row is
  -- the only one with its key.
  unfoldable pub key_to_id : List Text → InboxTable → Text → Option Text
  key_to_id keys [] key = none
  key_to_id keys (r ∷ rows) key =
      let rest = key_to_id keys rows key in
      if is_like_one keys r
      then (if text_eq r.idempotency_key key then some r.id else rest)
      else rest

  abbrev pub not_found : Text → MysqlError
  not_found key = record {
    code = none;
    errno = none;
    sql_message = [];
    message =
        codes "Inbox event with idempotency_key '"
        ++ key
        ++ codes "' not found after INSERT IGNORE";
  }

  -- The result for one event by the id that the query found for its key.
  abbrev pub answer_of : Text → Text → Option Text → Result InboxResult
  answer_of id key none = err (map_mysql_error (not_found key))
  answer_of id key (some existing) =
      if is_empty existing
      then err (map_mysql_error (not_found key))
      else ok (record {
        event_id = some existing;
        status = (if text_eq existing id then InboxOutcome.processed else InboxOutcome.duplicate);
      })

  abbrev pub and_rest : Result InboxResult → Result (List InboxResult) → Result (List InboxResult)
  and_rest (err e) rest = err e
  and_rest (ok r) rest = prepend r rest

  abbrev pub event_keys : List (Text × InboxEventInput) → List Text
  event_keys [] = []
  event_keys (p ∷ events) = p.1.idempotency_key ∷ event_keys events

  -- The last `events.map`, over the table that the query reads.
  unfoldable pub batch_answers :
      List Text → InboxTable → List (Text × InboxEventInput) → Result (List InboxResult)
  batch_answers keys rows [] = ok []
  batch_answers keys rows (p ∷ events) =
      and_rest (answer_of p.0 p.1.idempotency_key (key_to_id keys rows p.1.idempotency_key))
        (batch_answers keys rows events)

  -- The insert in session `s`, the query in `t`.
  unfoldable pub receive_batch :
      MysqlSession
      → MysqlSession
      → List (Text × InboxEventInput)
      → InboxTable
      → InboxTable × Result (List InboxResult)
  receive_batch s t events rows = if is_empty events then (rows, ok []) else elim s.fault [
    | some e ↦ (rows, err (map_mysql_error e))
    | none ↦ elim t.fault [
      | some e ↦ (insert_all_ignore s.now events rows, err (map_mysql_error e))
      | none ↦ (
        insert_all_ignore s.now events rows,
        batch_answers (event_keys events) (insert_all_ignore s.now events rows) events,
      )
    ]
  ]

unfoldable pub mark_failed :
    MysqlSession → Text → Text → InboxTable → InboxTable × Result (Unit {0})
mark_failed s id error rows = with_mysql_errors s rows (fail_rows s.now id error rows, tt)

abbrev pub cleanup_processed_events : MysqlSession → ℕ → InboxTable → InboxTable × Result ℕ
cleanup_processed_events s retention_days rows =
    cleanup_processed_inbox_events s retention_days rows
