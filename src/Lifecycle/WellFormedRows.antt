-- ===== src/Lifecycle/WellFormedRows.antt =====
-- What the columns of a row keep to in each status, under each assignment of the statements.
use outboxy.Base.{ℕ, ◌≡◌, ◌≤◌, ◌<◌, true, false, none, Text, Map, is_none, arith}
use outboxy.Schema.{OutboxEventRow, is_pending, is_processing, is_succeeded, is_failed, is_dlq}
use outboxy.Postgres.EventRepository.{
  BackoffConfig, start_processing, set_succeeded, set_retry, set_dlq,
}
use outboxy.Postgres.Maintenance.{is_stale, set_recovered, clear_key}
use outboxy.Postgres.EventService.{CreateEventInput, new_row, reset}

-- The columns of a row fit its status.
pub record WellFormed (r : OutboxEventRow) : Type 0 where
  pub within_retries : r.retry_count ≤ r.max_retries
  pub pending_fresh : is_pending r.status ≡ true → (r.retry_count ≡ 0) × (r.next_retry_at ≡ none)
  pub processing_started : is_processing r.status ≡ true → is_none r.processing_started_at ≡ false
  pub failed_scheduled : is_failed r.status ≡ true → is_none r.next_retry_at ≡ false
  pub succeeded_stamped : is_succeeded r.status ≡ true → is_none r.processed_at ≡ false
  pub dlq_stamped : is_dlq r.status ≡ true → is_none r.processed_at ≡ false

pub start_processing-WellFormed :
    (now : ℕ) (r : OutboxEventRow) → WellFormed r → WellFormed (start_processing now r)
unfolding start_processing
start_processing-WellFormed now r h = ground arith

pub set_succeeded-WellFormed :
    (now : ℕ) (workers : Map Text) (r : OutboxEventRow)
    → WellFormed r
    → WellFormed (set_succeeded now workers r)
unfolding set_succeeded
set_succeeded-WellFormed now workers r h = ground arith

pub set_retry-WellFormed :
    (now : ℕ) (config : BackoffConfig) (errors : Map Text) (r : OutboxEventRow)
    → r.retry_count < r.max_retries
    → WellFormed (set_retry now config errors r)
unfolding set_retry
set_retry-WellFormed now config errors r allowed = ground arith

pub set_dlq-WellFormed :
    (now : ℕ) (errors : Map Text) (r : OutboxEventRow)
    → WellFormed r
    → WellFormed (set_dlq now errors r)
unfolding set_dlq
set_dlq-WellFormed now errors r h = ground arith

pub set_recovered-WellFormed :
    (now threshold_ms : ℕ) (r : OutboxEventRow)
    → is_stale now threshold_ms r ≡ true
    → WellFormed (set_recovered now r)
unfolding is_stale set_recovered
set_recovered-WellFormed now threshold_ms r stale = ground arith

pub clear_key-WellFormed :
    (now : ℕ) (r : OutboxEventRow) → WellFormed r → WellFormed (clear_key now r)
unfolding clear_key
clear_key-WellFormed now r h = record {
  within_retries = h.within_retries;
  pending_fresh = h.pending_fresh;
  processing_started = h.processing_started;
  failed_scheduled = h.failed_scheduled;
  succeeded_stamped = h.succeeded_stamped;
  dlq_stamped = h.dlq_stamped;
}

pub reset-WellFormed : (now : ℕ) (r : OutboxEventRow) → WellFormed (reset now r)
unfolding reset
reset-WellFormed now r = ground arith

pub new_row-WellFormed :
    (now : ℕ) (id : Text) (input : CreateEventInput) → WellFormed (new_row now id input)
unfolding new_row
new_row-WellFormed now id input = ground arith
