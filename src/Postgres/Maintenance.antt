-- ===== src/Postgres/Maintenance.antt =====
-- packages/db-adapter-postgres/src/repositories/pg-maintenance.ts. The log lines are left out.
use outboxy.Base.{
  ℕ, ◌+◌, ◌*◌, Bool, true, false, not, ◌&&◌, List, Option, none, some, codes, ltb, if◌then◌else◌,
  is_none, select, count_where,
}
use outboxy.Schema.{
  OutboxEventRow, EventStatus, is_processing, is_succeeded, InboxEventRow, InboxEventStatus,
}
use outboxy.Sql.Update.{Table, update_where}
use outboxy.Postgres.Errors.{Session, Result, err, usage_error, with_error_mapping}

-- `t < NOW() - age`, where a `NULL` is not less than anything.
abbrev pub is_older : ℕ → ℕ → Option ℕ → Bool
is_older now age none = false
is_older now age (some t) = ltb (t + age) now

abbrev pub millisecond : ℕ
millisecond = 1000

abbrev pub second : ℕ
second = 1000000

abbrev pub day : ℕ
day = 86400000000

unfoldable pub is_stale : ℕ → ℕ → OutboxEventRow → Bool
is_stale now threshold_ms r =
    is_processing r.status
    && is_older now (threshold_ms * millisecond) r.processing_started_at
    && ltb r.retry_count r.max_retries

unfoldable pub set_recovered : ℕ → OutboxEventRow → OutboxEventRow
set_recovered now r = record r {
  status = EventStatus.failed;
  retry_count = r.retry_count + 1;
  last_error = some (codes "Recovered from stale processing state");
  next_retry_at = some (now + second);
  updated_at = now;
}

unfoldable pub recover_stale_events : Session → ℕ → Table → Table × Result ℕ
unfolding is_stale set_recovered with_error_mapping
recover_stale_events s threshold_ms rows = with_error_mapping s rows (
  update_where (is_stale s.now threshold_ms) (set_recovered s.now) rows,
  count_where (is_stale s.now threshold_ms) rows,
)

unfoldable pub has_stale_key : ℕ → ℕ → OutboxEventRow → Bool
has_stale_key now retention_days r =
    is_succeeded r.status
    && not (is_none r.idempotency_key)
    && is_older now (retention_days * day) r.processed_at

unfoldable pub clear_key : ℕ → OutboxEventRow → OutboxEventRow
clear_key now r = record r { idempotency_key = none; updated_at = now }

unfoldable pub cleanup_stale_idempotency_keys : Session → ℕ → Table → Table × Result ℕ
unfolding has_stale_key clear_key with_error_mapping
cleanup_stale_idempotency_keys s retention_days rows = with_error_mapping s rows (
  update_where (has_stale_key s.now retention_days) (clear_key s.now) rows,
  count_where (has_stale_key s.now retention_days) rows,
)

abbrev pub is_inbox_processed : InboxEventStatus → Bool
is_inbox_processed InboxEventStatus.processed = true
is_inbox_processed _ = false

unfoldable pub is_expired : ℕ → ℕ → InboxEventRow → Bool
is_expired now retention_days r =
    is_inbox_processed r.status && is_older now (retention_days * day) r.processed_at

-- A retention that is no integer does not arise: it is a natural number here.
unfoldable pub cleanup_processed_inbox_events :
    Session → ℕ → List InboxEventRow → List InboxEventRow × Result ℕ
unfolding is_expired with_error_mapping
cleanup_processed_inbox_events s retention_days rows =
    if ltb retention_days 1
    then (rows, err (usage_error (codes "retentionDays must be a positive integer")))
    else with_error_mapping s rows (
      select (λ r. not (is_expired s.now retention_days r)) rows,
      count_where (is_expired s.now retention_days) rows,
    )
