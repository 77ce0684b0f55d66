-- ===== src/Postgres/EventRepository.antt =====
-- packages/db-adapter-postgres/src/repositories/pg-event.repository.ts: each method takes the table
-- and returns it with the method's result.
pub mod Rows
pub mod Claim
pub mod Claimed
pub mod Backoff
use outboxy.Base.{
  ℕ, ◌+◌, ◌*◌, ◌/◌, ◌^◌, Bool, true, not, ◌&&◌, ◌||◌, List, [], ◌∷◌, map, Option, none, some, Text,
  codes, Map, get, ltb, leb, if◌then◌else◌, ◌or_else◌, is_none, is_empty, take, select, member,
  count_where, substring,
}
use outboxy.Schema.{
  OutboxEvent, OutboxEventRow, map_row_to_event, EventStatus, is_pending, is_failed,
  max_error_message_length,
}
use outboxy.Sql.Update.{Table, update_where, returning, ids}
use outboxy.Sql.Sort.{order_by_created_at}
use outboxy.Postgres.Errors.{Session, Result, ok, with_error_mapping}

-- `Array<{ eventId: string; workerId: string }>`.
pub record SucceededEvent : Type 0 where
  pub event_id : Text
  pub worker_id : Text

-- The base delay in milliseconds; the multiplier is the decimal `num / den`.
pub record BackoffConfig : Type 0 where
  pub backoff_base_ms : ℕ
  pub multiplier_num : ℕ
  pub multiplier_den : ℕ

-- `next_retry_at IS NULL OR next_retry_at <= NOW()`.
abbrev pub is_due : ℕ → Option ℕ → Bool
is_due now none = true
is_due now (some t) = leb t now

-- The `WHERE` clause of the claim and of the pending count.
unfoldable pub is_claimable : ℕ → OutboxEventRow → Bool
is_claimable now r =
    (is_pending r.status || is_failed r.status)
    && is_due now r.next_retry_at
    && is_none r.deleted_at

-- `SET status = 'processing', ...`.
unfoldable pub start_processing : ℕ → OutboxEventRow → OutboxEventRow
start_processing now r = record r {
  status = EventStatus.processing;
  processing_started_at = some now;
  updated_at = now;
}

-- The subquery: `ORDER BY created_at ASC LIMIT n FOR UPDATE SKIP LOCKED`.
unfoldable pub claimed_ids : Session → ℕ → Table → List Text
unfolding is_claimable
claimed_ids s batch_size rows = ids (
    take batch_size
      (order_by_created_at (select (λ r. is_claimable s.now r && not (s.locked r.id)) rows)))

unfoldable pub claim_pending_events : Session → ℕ → Table → Table × Result (List OutboxEvent)
unfolding claimed_ids with_error_mapping
claim_pending_events s batch_size rows =
    let claimed = claimed_ids s batch_size rows in
    with_error_mapping s rows (
      update_where (λ r. member r.id claimed) (start_processing s.now) rows,
      map map_row_to_event (returning (λ r. member r.id claimed) (start_processing s.now) rows),
    )

unfoldable pub get_pending_event_count : Session → Table → Table × Result ℕ
unfolding is_claimable with_error_mapping
get_pending_event_count s rows =
    with_error_mapping s rows (rows, count_where (is_claimable s.now) rows)

-- `CASE id WHEN k THEN v ... END`, which is `NULL` where no `WHEN` fits.
abbrev pub workers_by_id : List SucceededEvent → Map Text
workers_by_id [] = []
workers_by_id (r ∷ rs) = (r.event_id, r.worker_id) ∷ workers_by_id rs

abbrev pub succeeded_ids : List SucceededEvent → List Text
succeeded_ids [] = []
succeeded_ids (r ∷ rs) = r.event_id ∷ succeeded_ids rs

unfoldable pub set_succeeded : ℕ → Map Text → OutboxEventRow → OutboxEventRow
set_succeeded now workers r = record r {
  status = EventStatus.succeeded;
  processed_at = some now;
  updated_at = now;
  processed_by_worker = get r.id workers;
}

unfoldable pub mark_succeeded : Session → List SucceededEvent → Table → Table × Result (Unit {0})
unfolding set_succeeded with_error_mapping
mark_succeeded s results rows =
    if is_empty results
    then (rows, ok tt)
    else with_error_mapping s rows (
      update_where (λ r. member r.id (succeeded_ids results))
          (set_succeeded s.now (workers_by_id results)) rows,
      tt,
    )

-- `(errorMessages.get(id) ?? "Unknown error").substring(0, 1000)` for each id.
abbrev pub error_cases : List Text → Map Text → Map Text
error_cases [] messages = []
error_cases (id ∷ rest) messages =
    (id, substring max_error_message_length (get id messages or_else codes "Unknown error"))
    ∷ error_cases rest messages

-- `base * power(multiplier, retry_count) * interval '1 millisecond'`, to the nearest microsecond.
unfoldable pub backoff_delay : BackoffConfig → ℕ → ℕ
backoff_delay c retry_count =
    (2 * (c.backoff_base_ms * 1000 * c.multiplier_num ^ retry_count)
      + c.multiplier_den ^ retry_count)
    / (2 * c.multiplier_den ^ retry_count)

-- The right-hand sides read the row as it was before the update.
unfoldable pub set_retry : ℕ → BackoffConfig → Map Text → OutboxEventRow → OutboxEventRow
unfolding backoff_delay
set_retry now config errors r = record r {
  status = EventStatus.failed;
  retry_count = r.retry_count + 1;
  last_error = get r.id errors;
  updated_at = now;
  next_retry_at = some (now + backoff_delay config r.retry_count);
}

unfoldable pub schedule_retry :
    Session → List Text → Map Text → BackoffConfig → Table → Table × Result (Unit {0})
unfolding set_retry with_error_mapping
schedule_retry s event_ids error_messages config rows =
    if is_empty event_ids
    then (rows, ok tt)
    else with_error_mapping s rows (
      update_where (λ r. member r.id event_ids && ltb r.retry_count r.max_retries)
          (set_retry s.now config (error_cases event_ids error_messages)) rows,
      tt,
    )

unfoldable pub set_dlq : ℕ → Map Text → OutboxEventRow → OutboxEventRow
set_dlq now errors r = record r {
  status = EventStatus.dlq;
  last_error = get r.id errors;
  processed_at = some now;
  updated_at = now;
}

unfoldable pub move_to_dlq : Session → List Text → Map Text → Table → Table × Result (Unit {0})
unfolding set_dlq with_error_mapping
move_to_dlq s event_ids error_messages rows =
    if is_empty event_ids
    then (rows, ok tt)
    else with_error_mapping s rows (
      update_where (λ r. member r.id event_ids)
          (set_dlq s.now (error_cases event_ids error_messages)) rows,
      tt,
    )
