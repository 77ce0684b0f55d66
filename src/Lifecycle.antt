-- ===== src/Lifecycle.antt =====
-- The statements that the adapter sends, as the steps of one table: every interleaving of workers,
-- maintenance and the API is a sequence of them. docs/event-lifecycle.md describes the states.
pub mod WellFormedRows
pub mod Invariant
pub mod Handlers
pub mod Turns
pub mod Unchanged
pub mod Stranded
pub mod Flights
use outboxy.Base.{ℕ, ◌≡◌, ◌≤◌, false, List, Option, none, some, Text, Map, member, ◌≢◌, All}
use outboxy.Schema.{OutboxEventRow, EventStatus, InboxEventRow}
use outboxy.Sql.Update.{Table, ids, Unique}
use outboxy.Postgres.Errors.{Session}
use outboxy.Postgres.EventRepository.{
  SucceededEvent, BackoffConfig, claim_pending_events, mark_succeeded, schedule_retry, move_to_dlq,
}
use outboxy.Postgres.Maintenance.{recover_stale_events, cleanup_stale_idempotency_keys}
use outboxy.Postgres.EventService.{
  CreateEventInput, create_event, replay_update, replay_range_update,
}

-- One statement on the table, with any arguments and any session. An id that is inserted is fresh,
-- as `crypto.randomUUID()` makes it.
pub data Step : Table → Table → Type 0 where
  create :
      {rows : Table} (s : Session) (id : Text) (input : CreateEventInput)
      → member id (ids rows) ≡ false
      → Step rows (create_event s id input rows).0
  claim :
      {rows : Table} (s : Session) (batch_size : ℕ)
      → Step rows (claim_pending_events s batch_size rows).0
  succeed :
      {rows : Table} (s : Session) (results : List SucceededEvent)
      → Step rows (mark_succeeded s results rows).0
  retry :
      {rows : Table} (s : Session) (event_ids : List Text) (messages : Map Text)
      (config : BackoffConfig)
      → Step rows (schedule_retry s event_ids messages config rows).0
  dead_letter :
      {rows : Table} (s : Session) (event_ids : List Text) (messages : Map Text)
      → Step rows (move_to_dlq s event_ids messages rows).0
  recover :
      {rows : Table} (s : Session) (threshold_ms : ℕ)
      → Step rows (recover_stale_events s threshold_ms rows).0
  clean_up :
      {rows : Table} (s : Session) (retention_days : ℕ)
      → Step rows (cleanup_stale_idempotency_keys s retention_days rows).0
  replay :
      {rows : Table} (s : Session) (id : Text) (previous_status : EventStatus)
      → Step rows (replay_update s id previous_status rows).0
  replay_range :
      {rows : Table} (s : Session) (event_ids : List Text)
      → Step rows (replay_range_update s event_ids rows).0

pub data Reach (start : Table) : Table → Type 0 where
  done : Reach start start
  then : {rows rows' : Table} → Reach start rows → Step rows rows' → Reach start rows'
