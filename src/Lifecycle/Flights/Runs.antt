-- ===== src/Lifecycle/Flights/Runs.antt =====
-- The invariant of the flights, over every history of workers.
use outboxy.Base.{
  ℕ, ◌≡◌, refl, sym, ap, ◌∙◌, true, false, List, [], ◌∷◌, ◌++◌, none, some, Text, member, is_none,
  arith, Bool-cases, inl, inr, All, All-imp, All-append, if◌then◌else◌,
}
use mathlib.Core.Option.{some-injective}
use outboxy.Schema.{OutboxEventRow, is_processing, map_row_to_event}
use outboxy.Schema.Events.{event_at, event_ids, member-event_at}
use outboxy.Sql.Update.{Table, row_at, row_at-id, Unique, map_option}
use outboxy.Postgres.Errors.{Session}
use outboxy.Postgres.EventRepository.{
  is_claimable, start_processing, claimed_ids, claim_pending_events, succeeded_ids,
}
use outboxy.Postgres.EventRepository.Claim.{is_eligible, claimed_ids-eligible}
use outboxy.Postgres.EventRepository.Claimed.{
  claimed_events, event_at-claimed_events, claimed_events-DistinctIds, row_at-claim_pending_events,
}
use outboxy.Lifecycle.{
  Step, create, claim, succeed, retry, dead_letter, recover, clean_up, replay, replay_range,
}
use outboxy.Lifecycle.Invariant.{Sound, Step-Sound}
use outboxy.Lifecycle.Unchanged.{
  create_event-spares, claim_pending_events-spares, mark_succeeded-spares, schedule_retry-passes,
  move_to_dlq-spares, recover_stale_events-passes, cleanup-spares, replay_update-spares,
  replay_range_update-spares,
}
use outboxy.Lifecycle.Flights.{
  Flight, flights, flight_ids, HeldBy, landed, Quiet, Run, begin, claims, delivers, schedules,
  gives_up, others, DistinctFlights, InProcessing,
}
use outboxy.Lifecycle.Flights.Owners.{
  landed-DistinctFlights, All-landed, All-flights, All-flight_ids, flights-DistinctFlights, All-zip,
}

-- What holds of the table and the flights at every point.
pub record Orderly (rows : Table) (held : List Flight) : Type 0 where
  pub sound : Sound rows
  pub distinct : DistinctFlights held
  pub in_processing : All (InProcessing rows) held

Sound-Unique : (rows : Table) → Sound rows → Unique rows
unfolding Sound
Sound-Unique rows h = h.1

processing-ineligible :
    (s : Session) (r : OutboxEventRow) → is_processing r.status ≡ true → is_eligible s r ≡ false
unfolding is_claimable
processing-ineligible s r processing = ground (arith, processing)

module _ (s : Session) (works : s.fault ≡ none) (n : ℕ) (rows : Table) where
  event-claimed :
      (id : Text)
      → member id (event_ids (claimed_events s n rows)) ≡ true
      → member id (claimed_ids s n rows) ≡ true
  event-claimed id m = elim (Bool-cases (member id (claimed_ids s n rows))) [
    | inl claimed ↦ claimed
    | inr missed ↦
        let nothing : event_at id (claimed_events s n rows) ≡ none =
          event_at-claimed_events s n rows id
          ∙ ap
              (λ b.
                if b
                then map_option (λ r. map_row_to_event (start_processing s.now r)) (row_at id rows)
                else none)
              missed in
        cc (member-event_at id (claimed_events s n rows) m, ap is_none nothing)
  ]

  module _ (worker : Text) (held : List Flight) (h : Orderly rows held) where
    unique : Unique rows
    unique = Sound-Unique rows h.sound

    -- A claimed event is being processed after the claim.
    starts :
        (id : Text)
        → member id (event_ids (claimed_events s n rows)) ≡ true
        → InProcessing (claim_pending_events s n rows).0 (record { worker = worker; event_id = id })
    unfolding start_processing
    starts id m =
        let claimed = event-claimed id m in
        let (r, found, eligible) = claimed_ids-eligible s n rows id unique claimed in
        (
          start_processing s.now r,
          rw
              (
                row_at-claim_pending_events s works n rows id,
                found,
                row_at-id id rows {r = r} found,
                claimed,
              )
              refl,
          refl,
        )

    -- No held event is claimed.
    apart :
        (id : Text)
        → member id (event_ids (claimed_events s n rows)) ≡ true
        → member id (flight_ids held) ≡ false
    apart id m = elim (Bool-cases (member id (flight_ids held))) [
      | inr free ↦ free
      | inl busy ↦
          let (r, found, eligible) = claimed_ids-eligible s n rows id unique (event-claimed id m) in
          let (f, own, flying) = All-flight_ids (InProcessing rows) id held h.in_processing busy in
          let (r', found', processing) = flying in
          let same : r ≡ r' =
            some-injective r r' (sym found ∙ ap (λ k. row_at k rows) (sym own) ∙ found') in
          cc (eligible, ap (is_eligible s) same, processing-ineligible s r' processing)
    ]

    claims-Orderly :
        Orderly
          (claim_pending_events s n rows).0
          (flights worker (event_ids (claimed_events s n rows)) ++ held)
    claims-Orderly = record {
      sound = Step-Sound h.sound (claim s n);
      distinct =
          flights-DistinctFlights worker (claimed_events s n rows) held
            (claimed_events-DistinctIds s n rows unique) apart h.distinct;
      in_processing =
          All-append (InProcessing (claim_pending_events s n rows).0)
            (flights worker (event_ids (claimed_events s n rows))) held
            (All-flights (InProcessing (claim_pending_events s n rows).0) worker
              (event_ids (claimed_events s n rows)) starts)
            (All-imp (InProcessing rows) (InProcessing (claim_pending_events s n rows).0)
              (λ f flying.
                let (r, found, processing) = flying in
                (
                  r,
                  claim_pending_events-spares s f.event_id rows r found processing n unique,
                  processing,
                ))
              held h.in_processing);
    }

-- A settlement leaves the flights of other events as they are.
settles-Orderly :
    {rows rows' : Table} (worker : Text) (xs : List Text) (held : List Flight)
    → Step rows rows'
    → ((id : Text) (r : OutboxEventRow)
        → row_at id rows ≡ some r
        → member id xs ≡ false
        → row_at id rows' ≡ some r)
    → HeldBy worker xs held
    → Orderly rows held
    → Orderly rows' (landed worker xs held)
settles-Orderly {rows} {rows'} worker xs held step passes own h = record {
  sound = Step-Sound h.sound step;
  distinct = landed-DistinctFlights worker xs held h.distinct;
  in_processing =
      All-imp (λ f. InProcessing rows f × (member f.event_id xs ≡ false)) (InProcessing rows')
        (λ f facts.
          let (r, found, processing) = facts.0 in
          (r, passes f.event_id r found facts.1, processing))
        (landed worker xs held)
        (All-landed (InProcessing rows) worker xs held h.distinct own h.in_processing);
}

-- A statement that no worker settles with leaves what is in flight as it is.
quiet-Orderly :
    {rows rows' : Table} (held : List Flight) (step : Step rows rows')
    → (P : Flight → Type 0) → All P held
    → ((f : Flight) (r : OutboxEventRow)
        → P f
        → row_at f.event_id rows ≡ some r
        → is_processing r.status ≡ true
        → row_at f.event_id rows' ≡ some r)
    → Orderly rows held
    → Orderly rows' held
quiet-Orderly {rows} {rows'} held step P quiet passes h = record {
  sound = Step-Sound h.sound step;
  distinct = h.distinct;
  in_processing =
      All-imp (λ f. P f × InProcessing rows f) (InProcessing rows')
        (λ f facts.
          let (r, found, processing) = facts.1 in
          (r, passes f r facts.0 found processing, processing))
        held (All-zip P (InProcessing rows) held quiet h.in_processing);
}

trivially : (held : List Flight) → All (λ f. Unit {0}) held
trivially [] = tt
trivially (f ∷ held) = (tt, trivially held)

others-Orderly :
    {rows rows' : Table} (held : List Flight) (step : Step rows rows')
    → Quiet held step
    → Orderly rows held
    → Orderly rows' held
others-Orderly {rows} held (create s id input fresh) q h =
    quiet-Orderly held (create s id input fresh) (λ f. Unit) (trivially held)
      (λ f r x found p. create_event-spares s f.event_id rows r found id input) h
others-Orderly {rows} held (clean_up s days) q h =
    quiet-Orderly held (clean_up s days) (λ f. Unit) (trivially held)
      (λ f r x found p. cleanup-spares s f.event_id rows r found p days) h
others-Orderly {rows} held (replay s id previous_status) q h =
    quiet-Orderly held (replay s id previous_status) (λ f. Unit) (trivially held)
      (λ f r x found p. replay_update-spares s f.event_id rows r found p id previous_status) h
others-Orderly {rows} held (recover s threshold_ms) q h =
    quiet-Orderly held (recover s threshold_ms) _ q
      (λ f r x found p.
        recover_stale_events-passes s f.event_id rows r found threshold_ms (x r found))
      h
others-Orderly {rows} held (replay_range s event_ids) q h =
    quiet-Orderly held (replay_range s event_ids) _ q
      (λ f r x found p. replay_range_update-spares s f.event_id rows r found event_ids x) h
others-Orderly held (claim s n) q h = elim q [ ]
others-Orderly held (succeed s results) q h = elim q [ ]
others-Orderly held (retry s event_ids messages config) q h = elim q [ ]
others-Orderly held (dead_letter s event_ids messages) q h = elim q [ ]

-- In every history in which workers settle only events that they hold, a stale recovery comes only
-- when no held event is stale, and a range replay spares held events, no event is in flight twice:
-- neither at two workers nor at one. Each event in flight is in `processing`. The table is sound at
-- first, and claims that throw take nothing.
pub Run-Orderly :
    {start rows : Table} {held : List Flight}
    → Sound start
    → Run start rows held
    → Orderly rows held
Run-Orderly h begin = record { sound = h; distinct = tt; in_processing = tt }
Run-Orderly h (claims {rows} {held} run worker s n works) =
    claims-Orderly s works n rows worker held (Run-Orderly h run)
Run-Orderly h (delivers {rows} {held} run worker s results own) =
    settles-Orderly worker (succeeded_ids results) held (succeed s results)
      (λ id r found absent. mark_succeeded-spares s id rows r found results absent) own
      (Run-Orderly h run)
Run-Orderly h (schedules {rows} {held} run worker s event_ids messages config own) =
    settles-Orderly worker event_ids held (retry s event_ids messages config)
      (λ id r found absent.
        schedule_retry-passes s id rows r found event_ids messages config absent)
      own (Run-Orderly h run)
Run-Orderly h (gives_up {rows} {held} run worker s event_ids messages own) =
    settles-Orderly worker event_ids held (dead_letter s event_ids messages)
      (λ id r found absent. move_to_dlq-spares s id rows r found event_ids messages absent) own
      (Run-Orderly h run)
Run-Orderly h (others {rows} {held = held} run step quiet) =
    others-Orderly held step quiet (Run-Orderly h run)
