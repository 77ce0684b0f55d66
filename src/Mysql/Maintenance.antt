-- ===== src/Mysql/Maintenance.antt =====
-- packages/db-adapter-mysql/src/repositories/mysql-maintenance.ts. The log lines are left out.
pub mod Races
use outboxy.Base.{
  ℕ, ◌+◌, ◌*◌, ◌/◌, Bool, true, false, not, ◌&&◌, List, [], Option, none, some, Text, codes, ltb,
  if◌then◌else◌, is_none, is_empty, select, count_where, member,
}
use outboxy.Schema.{OutboxEventRow, is_processing, InboxEventRow}
use outboxy.Sql.Update.{Table, update_where, ids}
use outboxy.Postgres.Errors.{Result, ok, err, usage_error}
use outboxy.Postgres.Maintenance.{
  is_older, second, set_recovered, has_stale_key, clear_key, is_expired,
}
use outboxy.Mysql.Errors.{
  MysqlSession, map_mysql_error, with_mysql_errors, invalid_id, invalid_id_error,
}

-- `Math.ceil(thresholdMs / 1000)`.
abbrev pub threshold_seconds : ℕ → ℕ
threshold_seconds threshold_ms = (threshold_ms + 999) / 1000

unfoldable pub is_stale : ℕ → ℕ → OutboxEventRow → Bool
is_stale now threshold_ms r =
    is_processing r.status
    && is_older now (threshold_seconds threshold_ms * second) r.processing_started_at
    && ltb r.retry_count r.max_retries

unfoldable pub stale_ids : MysqlSession → ℕ → Table → List Text
stale_ids s threshold_ms rows = ids (select (is_stale s.now threshold_ms) rows)

-- The second statement of `recoverStaleEvents`, of the ids that the first found: it does not test again
-- that they are stale.
unfoldable pub recover_ids : MysqlSession → List Text → Table → Table × Result ℕ
recover_ids t event_ids rows = elim (invalid_id event_ids) [
  | some id ↦ (rows, err (map_mysql_error (invalid_id_error id)))
  | none ↦ with_mysql_errors t rows (
    update_where (λ r. member r.id event_ids) (set_recovered t.now) rows,
    count_where (λ r. member r.id event_ids) rows,
  )
]

unfoldable pub recover_found : MysqlSession → (Table → Table) → List Text → Table → Table × Result ℕ
recover_found t between event_ids rows =
    if is_empty event_ids then (rows, ok 0) else recover_ids t event_ids (between rows)

-- Two statements, in sessions `s` and `t`; what other transactions do between them is a function.
unfoldable pub recover_stale_events :
    MysqlSession → MysqlSession → (Table → Table) → ℕ → Table → Table × Result ℕ
recover_stale_events s t between threshold_ms rows = elim s.fault [
  | some e ↦ (rows, err (map_mysql_error e))
  | none ↦ recover_found t between (stale_ids s threshold_ms rows) rows
]

unfoldable pub cleanup_stale_idempotency_keys : MysqlSession → ℕ → Table → Table × Result ℕ
cleanup_stale_idempotency_keys s retention_days rows = with_mysql_errors s rows (
  update_where (has_stale_key s.now retention_days) (clear_key s.now) rows,
  count_where (has_stale_key s.now retention_days) rows,
)

-- A retention that is no integer does not arise: it is a natural number here.
unfoldable pub cleanup_processed_inbox_events :
    MysqlSession → ℕ → List InboxEventRow → List InboxEventRow × Result ℕ
cleanup_processed_inbox_events s retention_days rows =
    if ltb retention_days 1
    then (rows, err (usage_error (codes "retentionDays must be a positive integer")))
    else with_mysql_errors s rows (
      select (λ r. not (is_expired s.now retention_days r)) rows,
      count_where (is_expired s.now retention_days) rows,
    )
