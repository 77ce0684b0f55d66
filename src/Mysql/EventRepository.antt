-- ===== src/Mysql/EventRepository.antt =====
-- packages/db-adapter-mysql/src/repositories/mysql-event.repository.ts: each method takes the table and
-- returns it with the method's result.
pub mod Claims
pub mod Backoff
use outboxy.Base.{
  ℕ, ◌+◌, ◌-◌, ◌*◌, ◌/◌, ◌^◌, Bool, true, false, not, ◌&&◌, ◌||◌, List, [], ◌∷◌, ◌++◌, map, Option,
  none, some, Text, codes, Map, get, ltb, leb, if◌then◌else◌, ◌or_else◌, is_none, is_empty, take,
  select, member, count_where, substring,
}
use outboxy.Schema.{
  OutboxEvent, OutboxEventRow, map_row_to_event, EventStatus, is_pending, is_failed,
  max_error_message_length,
}
use outboxy.Sql.Update.{Table, update_where, ids}
use outboxy.Postgres.Errors.{Result, ok, err, usage_error}
use outboxy.Postgres.EventRepository.{
  SucceededEvent, BackoffConfig, start_processing, set_succeeded, workers_by_id, succeeded_ids,
}
use outboxy.Mysql.Errors.{
  MysqlSession, map_mysql_error, with_mysql_errors, invalid_id, invalid_id_error,
}

-- `next_retry_at <= NOW()`, which a `NULL` is not.
abbrev pub has_come : ℕ → Option ℕ → Bool
has_come now none = false
has_come now (some t) = leb t now

-- The `WHERE` clause of the claim and of the pending count.
unfoldable pub is_claimable : ℕ → OutboxEventRow → Bool
is_claimable now r =
    (is_pending r.status || (is_failed r.status && has_come now r.next_retry_at))
    && is_none r.deleted_at

-- `LIMIT n FOR UPDATE SKIP LOCKED`, with no order: the order of the scan.
unfoldable pub claimed_ids : MysqlSession → ℕ → Table → List Text
claimed_ids s batch_size rows =
    ids (take batch_size (select (λ r. is_claimable s.now r && not (s.locked r.id)) rows))

-- `SELECT * FROM outbox_events WHERE id IN (ids)`.
abbrev pub rows_with : List Text → Table → Table
rows_with claimed rows = select (λ r. member r.id claimed) rows

-- The transaction of a claim that found `claimed`, from its update on. What other transactions do
-- between the commit and the last query is the function `between`.
unfoldable pub claim_found :
    MysqlSession
    → MysqlSession
    → (Table → Table)
    → List Text
    → Table
    → Table × Result (List OutboxEvent)
claim_found u q between claimed rows = elim (invalid_id claimed) [
  | some id ↦ (rows, err (map_mysql_error (invalid_id_error id)))
  | none ↦ elim u.fault [
    | some e ↦ (rows, err (map_mysql_error e))
    | none ↦
        let after =
          between (update_where (λ r. member r.id claimed) (start_processing u.now) rows) in
        with_mysql_errors q after (after, map map_row_to_event (rows_with claimed after))
  ]
]

-- The rest of the transaction, once its select has found `claimed`.
unfoldable pub claim_ids :
    MysqlSession
    → MysqlSession
    → (Table → Table)
    → List Text
    → Table
    → Table × Result (List OutboxEvent)
claim_ids u q between claimed rows =
    if is_empty claimed then (rows, ok []) else claim_found u q between claimed rows

-- `claimPendingEvents`: the select in session `s`, the update in `u`, the last query in `q`.
unfoldable pub claim_pending_events :
    MysqlSession
    → MysqlSession
    → MysqlSession
    → (Table → Table)
    → ℕ
    → Table
    → Table × Result (List OutboxEvent)
claim_pending_events s u q between batch_size rows = elim s.fault [
  | some e ↦ (rows, err (map_mysql_error e))
  | none ↦ claim_ids u q between (claimed_ids s batch_size rows) rows
]

unfoldable pub get_pending_event_count : MysqlSession → Table → Table × Result ℕ
get_pending_event_count s rows =
    with_mysql_errors s rows (rows, count_where (is_claimable s.now) rows)

-- The check of the ids stands inside the error mapping.
unfoldable pub mark_succeeded :
    MysqlSession → List SucceededEvent → Table → Table × Result (Unit {0})
mark_succeeded s results rows =
    if is_empty results then (rows, ok tt) else elim (invalid_id (succeeded_ids results)) [
      | some id ↦ (rows, err (map_mysql_error (invalid_id_error id)))
      | none ↦ with_mysql_errors s rows (
        update_where (λ r. member r.id (succeeded_ids results))
            (set_succeeded s.now (workers_by_id results)) rows,
        tt,
      )
    ]

-- `(errorMessages.get(id) || default).substring(0, 1000)` for each id.
abbrev pub message_or : Text → Option Text → Text
message_or default none = default
message_or default (some m) = if is_empty m then default else m

abbrev pub error_cases : Text → List Text → Map Text → Map Text
error_cases default [] messages = []
error_cases default (id ∷ rest) messages =
    (id, substring max_error_message_length (message_or default (get id messages)))
    ∷ error_cases default rest messages

-- `CEIL((base * POW(multiplier, n)) / 1000)`, in seconds, for an exact power.
unfoldable pub backoff_seconds : BackoffConfig → ℕ → ℕ
backoff_seconds c n =
    (c.backoff_base_ms * c.multiplier_num ^ n + 1000 * c.multiplier_den ^ n - 1)
    / (1000 * c.multiplier_den ^ n)

-- MySQL evaluates the assignments of a `SET` from left to right, so that the delay reads the count that
-- was just increased.
unfoldable pub set_retry : ℕ → BackoffConfig → Map Text → OutboxEventRow → OutboxEventRow
set_retry now config errors r = record r {
  status = EventStatus.failed;
  retry_count = r.retry_count + 1;
  next_retry_at = some (now + backoff_seconds config (r.retry_count + 1) * 1000000);
  last_error = get r.id errors;
  processing_started_at = none;
  updated_at = now;
}

-- The check of the ids stands before the error mapping.
unfoldable pub schedule_retry :
    MysqlSession → List Text → Map Text → BackoffConfig → Table → Table × Result (Unit {0})
schedule_retry s event_ids error_messages config rows =
    if is_empty event_ids then (rows, ok tt) else elim (invalid_id event_ids) [
      | some id ↦ (rows, err (usage_error (codes "Invalid event ID format: " ++ id)))
      | none ↦ with_mysql_errors s rows (
        update_where (λ r. member r.id event_ids && ltb r.retry_count r.max_retries)
            (set_retry s.now config (error_cases (codes "Unknown error") event_ids error_messages))
            rows,
        tt,
      )
    ]

-- `processed_at` is left as it is, unlike in the adapter for PostgreSQL.
unfoldable pub set_dlq : ℕ → Map Text → OutboxEventRow → OutboxEventRow
set_dlq now errors r = record r {
  status = EventStatus.dlq;
  last_error = get r.id errors;
  updated_at = now;
}

unfoldable pub move_to_dlq : MysqlSession → List Text → Map Text → Table → Table × Result (Unit {0})
move_to_dlq s event_ids error_messages rows =
    if is_empty event_ids then (rows, ok tt) else elim (invalid_id event_ids) [
      | some id ↦ (rows, err (usage_error (codes "Invalid event ID format: " ++ id)))
      | none ↦ with_mysql_errors s rows (
        update_where (λ r. member r.id event_ids)
            (set_dlq s.now (error_cases (codes "Moved to DLQ") event_ids error_messages)) rows,
        tt,
      )
    ]
