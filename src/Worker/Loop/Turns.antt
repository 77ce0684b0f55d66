-- ===== src/Worker/Loop/Turns.antt =====
-- One turn of the loop as a row sees it, and what any number of turns keeps.
use outboxy.Base.{
  ℕ, ◌≡◌, refl, sym, ap, inl, inr, List, [], ◌∷◌, none, some, Text, member, arith, if◌then◌else◌,
  Option-cases,
}
use outboxy.Schema.{OutboxEvent, OutboxEventRow, map_row_to_event}
use outboxy.Schema.Events.{event_at}
use outboxy.Sql.Update.{Table, row_at, Unique, row_at-id, map_option, updated}
use outboxy.Publisher.{Publication, resolved, rejected}
use outboxy.Postgres.EventRepository.{start_processing, claimed_ids, claim_pending_events}
use outboxy.Postgres.EventRepository.Claimed.{
  claimed_events, claim_pending_events-ok, row_at-claim_pending_events, event_at-claimed_events,
  claimed_events-DistinctIds,
}
use outboxy.Worker.Batch.{group_batch_results}
use outboxy.Worker.Execute.{Worker, BatchSessions, execute_batch_processing}
use outboxy.Worker.Execute.Settle.{AllWork}
use outboxy.Worker.Execute.Collect.{Explained}
use outboxy.Worker.Execute.Batch.{dispose_event, row_at-execute_batch_processing}
use outboxy.Worker.Loop.{Turn, finish_turn, process_events, poll_turn}

-- An empty batch changes nothing.
execute_batch_processing-nil :
    (w : Worker) (ss : BatchSessions) (p : Publication) (duration_ms : ℕ) (rows : Table)
    → (execute_batch_processing w ss p duration_ms [] rows).0 ≡ rows
unfolding execute_batch_processing group_batch_results
execute_batch_processing-nil w ss (resolved results) duration_ms rows = refl
execute_batch_processing-nil w ss (rejected error) duration_ms rows = refl

process_events-table :
    (w : Worker) (t : Turn) (events : List OutboxEvent) (rows : Table)
    → (process_events w t events rows).0
      ≡ (execute_batch_processing w t.batch (t.publisher events) t.batch_duration_ms events rows).0
unfolding process_events finish_turn
process_events-table w t [] rows =
    sym (execute_batch_processing-nil w t.batch (t.publisher []) t.batch_duration_ms rows)
process_events-table w t (e ∷ events) rows = refl

module _ (w : Worker) (t : Turn) (rows : Table) where
  -- The events of the turn, and what the publisher answers for them.
  abbrev pub turn_events : List OutboxEvent
  turn_events = claimed_events t.claim w.config.batch_size rows

  abbrev pub turn_publication : Publication
  turn_publication = t.publisher turn_events

  -- The statements of the turn all run, and its metrics do not throw.
  pub record TurnWorks : Type 0 where
    pub claim_works : t.claim.fault ≡ none
    pub batch_works : AllWork t.batch
    pub explained : Explained w.has_metrics turn_publication t.batch_duration_ms turn_events

  -- A turn leaves the table that the batch leaves of the claimed events.
  poll_turn-table :
      t.claim.fault ≡ none
      → (poll_turn w t rows).0
        ≡ (execute_batch_processing w t.batch turn_publication t.batch_duration_ms turn_events
            (claim_pending_events t.claim w.config.batch_size rows).0).0
  unfolding poll_turn
  poll_turn-table works =
      rw (ap (λ x. x.1) (claim_pending_events-ok t.claim works w.config.batch_size rows), poll_turn)
        (process_events-table w t turn_events _)

  -- What a turn makes of a row.
  abbrev pub turn_row : OutboxEventRow → OutboxEventRow
  turn_row r =
      let started = start_processing t.claim.now r in
      if member r.id (claimed_ids t.claim w.config.batch_size rows)
      then dispose_event w t.batch turn_publication t.batch_duration_ms
          (some (map_row_to_event started)) started
      else r

  turn_row-claimed :
      (id : Text) (r : OutboxEventRow)
      → row_at id rows ≡ some r
      → dispose_event w t.batch turn_publication t.batch_duration_ms (event_at id turn_events) (
          updated
            (λ r. member r.id (claimed_ids t.claim w.config.batch_size rows))
            (start_processing t.claim.now)
            r)
        ≡ turn_row r
  turn_row-claimed id r found = ground (
    arith,
    event_at-claimed_events t.claim w.config.batch_size rows id,
    row_at-id id rows {r = r} found,
    found,
  )

  -- One turn of the loop on a table with unique ids: the rows that it claims are first moved to
  -- `processing` and then disposed of as the decision on their own result says, and no other row
  -- changes.
  pub row_at-poll_turn :
      (id : Text)
      → Unique rows
      → TurnWorks
      → row_at id (poll_turn w t rows).0 ≡ map_option turn_row (row_at id rows)
  row_at-poll_turn id u works =
      rw
        (
          poll_turn-table works.claim_works,
          row_at-execute_batch_processing w t.batch turn_publication t.batch_duration_ms turn_events
              id _ works.batch_works (claimed_events-DistinctIds t.claim w.config.batch_size rows u)
              works.explained,
          row_at-claim_pending_events t.claim works.claim_works w.config.batch_size rows id,
        )
        (elim (Option-cases (row_at id rows)) [
          | inl e ↦ rw e refl
          | inr (r, e) ↦ rw e (ap some (turn_row-claimed id r e))
        ])
