-- ===== src/Lifecycle/Flights.antt =====
-- Several workers at once: which worker holds which event between its claim and its settlement.
pub mod Owners
pub mod Runs
use outboxy.Base.{
  ℕ, ◌≡◌, refl, sym, ap, ◌∙◌, Bool, true, false, not, ◌&&◌, List, [], ◌∷◌, ◌++◌, Option, none, some,
  Text, Map, member, find, select, text_eq, text_eq_iff, text_eq_self, arith, Bool-cases,
  Option-cases, inl, inr, All, All-imp, All-append, All-select, if◌then◌else◌,
}
use outboxy.Schema.{OutboxEvent, OutboxEventRow, is_processing}
use outboxy.Schema.Events.{event_at, event_ids, DistinctIds}
use outboxy.Sql.Update.{Table, row_at, row_at-id, ids, Unique, update_where, KeepsId}
use outboxy.Postgres.Errors.{Session, with_error_mapping}
use outboxy.Postgres.EventRepository.{
  SucceededEvent, BackoffConfig, claim_pending_events, mark_succeeded, succeeded_ids,
  schedule_retry, move_to_dlq,
}
use outboxy.Postgres.EventRepository.Claimed.{claimed_events}
use outboxy.Postgres.Maintenance.{is_stale, recover_stale_events}
use outboxy.Lifecycle.{
  Step, Reach, create, claim, succeed, retry, dead_letter, recover, clean_up, replay, replay_range,
}
use outboxy.Lifecycle.Invariant.{Sound, Step-Sound}

-- An event that a worker has claimed and not settled yet.
pub record Flight : Type 0 where
  pub worker : Text
  pub event_id : Text

abbrev pub flights : Text → List Text → List Flight
flights worker [] = []
flights worker (id ∷ ids) = record { worker = worker; event_id = id } ∷ flights worker ids

abbrev pub flight_ids : List Flight → List Text
flight_ids [] = []
flight_ids (f ∷ held) = f.event_id ∷ flight_ids held

-- The worker that holds an event.
unfoldable pub owner : Text → List Flight → Option Text
owner id [] = none
owner id (f ∷ held) = if text_eq f.event_id id then some f.worker else owner id held

-- Every event of the list is held by the worker.
abbrev pub HeldBy : Text → List Text → List Flight → Type 0
HeldBy worker xs held = (id : Text) → member id xs ≡ true → owner id held ≡ some worker

-- The flights that are left when a worker has settled some events.
unfoldable pub landed : Text → List Text → List Flight → List Flight
landed worker xs held = select (λ f. not (text_eq f.worker worker && member f.event_id xs)) held

-- The statement is no claim and no settlement, a recovery finds no held event stale, and a range
-- replay updates none.
abbrev pub Quiet : List Flight → {rows rows' : Table} → Step rows rows' → Type 0
Quiet held (create s id input fresh) = Unit
Quiet held (clean_up s days) = Unit
Quiet held (replay s id previous_status) = Unit
Quiet held (recover {rows} s threshold_ms) =
    All
      (λ f.
        (r : OutboxEventRow)
        → row_at f.event_id rows ≡ some r
        → is_stale s.now threshold_ms r ≡ false)
      held
Quiet held (replay_range s event_ids) = All (λ f. member f.event_id event_ids ≡ false) held
Quiet held _ = ⊥

-- The histories of a table with workers that claim, settle what they hold, and hold it in between.
-- A settlement ends the flights whether or not its statement fails.
pub data Run (start : Table) : Table → List Flight → Type 0 where
  begin : Run start start []
  claims :
      {rows : Table} {held : List Flight}
      → Run start rows held
      → (worker : Text) (s : Session) (batch_size : ℕ) → s.fault ≡ none
      → Run start
          (claim_pending_events s batch_size rows).0
          (flights worker (event_ids (claimed_events s batch_size rows)) ++ held)
  delivers :
      {rows : Table} {held : List Flight}
      → Run start rows held
      → (worker : Text) (s : Session) (results : List SucceededEvent)
      → HeldBy worker (succeeded_ids results) held
      → Run start (mark_succeeded s results rows).0 (landed worker (succeeded_ids results) held)
  schedules :
      {rows : Table} {held : List Flight}
      → Run start rows held
      → (worker : Text) (s : Session) (event_ids : List Text) (messages : Map Text)
        (config : BackoffConfig)
      → HeldBy worker event_ids held
      → Run start (schedule_retry s event_ids messages config rows).0 (landed worker event_ids held)
  gives_up :
      {rows : Table} {held : List Flight}
      → Run start rows held
      → (worker : Text) (s : Session) (event_ids : List Text) (messages : Map Text)
      → HeldBy worker event_ids held
      → Run start (move_to_dlq s event_ids messages rows).0 (landed worker event_ids held)
  others :
      {rows rows' : Table} {held : List Flight}
      → Run start rows held
      → (step : Step rows rows') → Quiet held step
      → Run start rows' held

-- No event is in flight twice.
abbrev pub DistinctFlights : List Flight → Type 0
DistinctFlights [] = Unit
DistinctFlights (f ∷ held) = (member f.event_id (flight_ids held) ≡ false) × DistinctFlights held

-- The event in flight is being processed.
abbrev pub InProcessing : Table → Flight → Type 0
InProcessing rows f =
    (r : OutboxEventRow) × (row_at f.event_id rows ≡ some r) × (is_processing r.status ≡ true)
