-- ===== src/Tests/MysqlAdapter.antt =====
-- The adapter for MySQL: ids that are UUIDs, a row that is due, a worker that settles an event between two
-- statements, and keys in two spellings.
use outboxy.Base.{
  ℕ, ◌+◌, ◌*◌, ◌≤◌, ◌<◌, ◌≡◌, refl, true, false, List, [], ◌∷◌, map, some, none, codes, Text,
  member, text_eq, find, select, arith, to_lower_case, lower_unit,
}
use outboxy.Schema.{Json, OutboxEventRow, EventStatus, InboxOutcome, is_failed}
use outboxy.Sql.Update.{Table, row_at, ids}
use outboxy.Postgres.Errors.{ok, err}
use outboxy.Postgres.EventRepository
use outboxy.Postgres.EventRepository.{set_succeeded, workers_by_id}
use outboxy.Postgres.EventRepository.Backoff.{whole}
use outboxy.Postgres.Inbox.{InboxEventInput, inbox_row, insert_all}
use outboxy.Postgres.Inbox.Batch.{Received}
use outboxy.Lifecycle.WellFormedRows.{WellFormed}
use outboxy.Mysql.Errors.{MysqlSession, map_mysql_error, is_uuid, invalid_id}
use outboxy.Mysql.EventRepository.{is_claimable, claimed_ids, claim_pending_events, set_retry}
use outboxy.Mysql.EventRepository.Claims.{mysql_claims_exclusive}
use outboxy.Mysql.EventRepository.Backoff.{set_retry-later}
use outboxy.Mysql.Maintenance.{is_stale, stale_ids, recover_stale_events}
use outboxy.Mysql.Maintenance.Races.{recover_stale_events-undoes}
use outboxy.Mysql.Inbox.{receive, receive_batch, not_found}
use outboxy.Mysql.Inbox.Keys.{TellsApart, other_spelling-throws}
use outboxy.Mysql.Inbox.Batch.{mysql_answer_for, mysql_receive_batch-answers}
use outboxy.Tests.Data.{order_row, invoice_row}

abbrev running : ℕ → MysqlSession
running now = record { now = now; locked = λ id. false; fault = none }

abbrev locking_all : ℕ → MysqlSession
locking_all now = record { now = now; locked = λ id. true; fault = none }

abbrev uuid : Text
uuid = codes "0b5cf1de-2f9a-4c31-8f3a-6a1f0c3d9e77"

abbrev due_row : OutboxEventRow
due_row = record order_row { id = uuid }

abbrev due_rows : Table
due_rows = due_row ∷ []

invoice_row-WellFormed : WellFormed invoice_row
invoice_row-WellFormed = record {
  within_retries = omega arith;
  pending_fresh = λ p. cc;
  processing_started = λ p. cc;
  failed_scheduled = λ p. refl;
  succeeded_stamped = λ p. cc;
  dlq_stamped = λ p. cc;
}

mysql_claims_exclusive_example :
    (true ≡ true → member uuid (claimed_ids (locking_all 60) 5 due_rows) ≡ false)
    × (member uuid (
          claimed_ids
            (locking_all 60)
            5
            (claim_pending_events (running 50) (running 51) (running 52) (λ t. t) 5 due_rows).0)
        ≡ false)
unfolding is_uuid invalid_id claimed_ids is_claimable member text_eq ids select
mysql_claims_exclusive_example =
    mysql_claims_exclusive (running 50) (running 51) (running 52) (locking_all 60) 5 5 due_rows uuid
      (refl, tt) refl refl refl refl

set_retry-later_example :
    (wait : ℕ) × (postgres_wait : ℕ) × ((set_retry 50 (whole 1000 2) [] due_row).next_retry_at
      ≡ some (50 + wait))
    × ((EventRepository.set_retry 50 (whole 1000 2) [] due_row).next_retry_at
        ≡ some (50 + postgres_wait))
    × (2 * postgres_wait ≤ wait)
    × (wait < 2 * postgres_wait + 1000000)
set_retry-later_example = set_retry-later 50 1000 2 [] due_row

abbrev old_row : OutboxEventRow
old_row = record due_row { status = EventStatus.processing; processing_started_at = some 0 }

-- The worker's update between the two statements.
abbrev delivered : OutboxEventRow
delivered = record old_row {
  status = EventStatus.succeeded;
  processed_at = some 9000000;
  updated_at = 9000000;
  processed_by_worker = some (codes "w");
}

recover_stale_events-undoes_example :
    (x : OutboxEventRow) × (row_at uuid
        (recover_stale_events
          (running 9000000)
          (running 9000000)
          (λ t. delivered ∷ [])
          5000
          (old_row ∷ [])).0
      ≡ some x)
    × (is_failed x.status ≡ true)
    × (is_claimable 10000000 x ≡ true)
unfolding is_uuid invalid_id stale_ids is_stale text_eq ids select row_at
recover_stale_events-undoes_example =
    recover_stale_events-undoes (running 9000000) (running 9000000) (λ t. delivered ∷ []) 5000
      10000000 (old_row ∷ []) uuid old_row delivered refl refl refl refl refl refl refl refl
      (omega arith)

abbrev sale : Text → InboxEventInput
sale key = record {
  idempotency_key = key;
  aggregate_type = codes "Sale";
  aggregate_id = codes "1";
  event_type = codes "Sold";
  payload = Json.null;
  source = none;
  event_version = none;
  headers = none;
  metadata = none;
}

-- The key in capitals, in a database that compares without case.
other_spelling-throws_example :
    ((receive to_lower_case
        (running 5)
        (codes "b")
        (sale (codes "k"))
        (inbox_row 1 (codes "a") (sale (codes "K")) ∷ [])).1
      ≡ ok (record { event_id = none; status = InboxOutcome.duplicate }))
    × ((receive_batch to_lower_case
          (running 5)
          (running 6)
          ((codes "b", sale (codes "k")) ∷ [])
          (inbox_row 1 (codes "a") (sale (codes "K")) ∷ [])).1
        ≡ err (map_mysql_error (not_found to_lower_case (codes "k"))))
unfolding text_eq find to_lower_case lower_unit inbox_row
other_spelling-throws_example =
    other_spelling-throws to_lower_case (running 5) (running 6) (codes "b") (sale (codes "k"))
      (inbox_row 1 (codes "a") (sale (codes "K")) ∷ []) refl refl refl (refl, tt)

abbrev two_sales : List Received
two_sales = (codes "b", sale (codes "k")) ∷ (codes "c", sale (codes "k")) ∷ []

exactly : TellsApart (λ t. t) (λ t. true)
exactly a b known known' = refl

mysql_receive_batch-answers_example :
    receive_batch (λ t. t) (running 5) (running 6) two_sales []
    ≡ (insert_all 5 two_sales [], ok (map (mysql_answer_for two_sales []) two_sales))
mysql_receive_batch-answers_example =
    mysql_receive_batch-answers (λ t. t) (λ t. true) (running 5) (running 6) two_sales [] exactly
      refl refl (record { not_in_table = tt; not_empty = (refl, (refl, tt)) }) (refl, (refl, tt)) tt
