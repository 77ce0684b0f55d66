-- ===== src/Lifecycle/Turns.antt =====
-- What turns of the worker's loop come to for one event, over a table that keeps the invariant.
use outboxy.Base.{
  ◌+◌, ◌≤◌, ◌<◌, ◌≡◌, refl, ap, true, false, List, [], ◌∷◌, some, Text, member, length, arith,
  if◌then◌else◌,
}
use outboxy.Schema.{OutboxEventRow, map_row_to_event, is_processing, is_dlq}
use outboxy.Sql.Update.{Table, row_at, row_at-id, Unique, All-row_at}
use outboxy.Worker.Retry.{decide_retry}
use outboxy.Postgres.EventRepository.{start_processing, claimed_ids}
use outboxy.Worker.Execute.{Worker, EventProcessingResult}
use outboxy.Worker.Execute.Collect.{result_of}
use outboxy.Worker.Execute.Batch.{event_decision}
use outboxy.Worker.Loop.{Turn, TurnResult, poll_turn, run_poll_loop}
use outboxy.Worker.Loop.Turns.{TurnWorks, turn_publication, turn_row, row_at-poll_turn}
use outboxy.Lifecycle.{done}
use outboxy.Lifecycle.Invariant.{Sound, Reach-Sound}
use outboxy.Lifecycle.WellFormedRows.{WellFormed}
use outboxy.Lifecycle.Handlers.{poll_turn-Reach}

Sound-Unique : (rows : Table) → Sound rows → Unique rows
unfolding Sound
Sound-Unique rows h = h.1

Sound-row :
    (rows : Table) (id : Text) (r : OutboxEventRow)
    → Sound rows
    → row_at id rows ≡ some r
    → WellFormed r
unfolding Sound
Sound-row rows id r h found = All-row_at WellFormed id rows {r = r} h.0 found

-- The event of a row that a turn has claimed, and what publishing comes to for it.
abbrev pub turn_result : Worker → Turn → Table → OutboxEventRow → EventProcessingResult
turn_result w t rows r =
    result_of (turn_publication w t rows) t.batch_duration_ms
      (map_row_to_event (start_processing t.claim.now r))

module _ (w : Worker) (t : Turn) (rows : Table) (id : Text) (r : OutboxEventRow) where
  -- On a sound table, a turn whose statements all run leaves no event that it claims in
  -- `processing`, if the worker allows no more retries than the event's row.
  pub poll_turn-leaves_processing :
      Sound rows
      → TurnWorks w t rows
      → row_at id rows ≡ some r
      → member id (claimed_ids t.claim w.config.batch_size rows) ≡ true
      → w.config.max_retries ≤ r.max_retries
      → (r' : OutboxEventRow) × (row_at id (poll_turn w t rows).0 ≡ some r')
        × (is_processing r'.status ≡ false)
  unfolding event_decision decide_retry start_processing map_row_to_event
  poll_turn-leaves_processing sound works found claimed allows = (
    turn_row w t rows r,
    rw (row_at-poll_turn w t rows id (Sound-Unique rows sound) works, found),
    ground
        (arith, row_at-id id rows {r = r} found, (Sound-row rows id r sound found).within_retries),
  )

-- Turns that each claim the event and fail to deliver it, with a failure that may be retried.
abbrev pub FailingTurns : Worker → Text → List Turn → Table → Type 0
FailingTurns w id [] rows = Unit
FailingTurns w id (t ∷ turns) rows =
    (t.stopped ≡ false)
    × TurnWorks w t rows
    × (member id (claimed_ids t.claim w.config.batch_size rows) ≡ true)
    × ((r : OutboxEventRow)
        → row_at id rows ≡ some r
        → ((turn_result w t rows r).success ≡ false) × ((turn_result w t rows r).retryable ≡ true))
    × FailingTurns w id turns (poll_turn w t rows).0

module _ (w : Worker) (t : Turn) (rows : Table) (id : Text) (r : OutboxEventRow)
    (sound : Sound rows) (works : TurnWorks w t rows) (found : row_at id rows ≡ some r)
    (claimed : member id (claimed_ids t.claim w.config.batch_size rows) ≡ true)
    (fails : (turn_result w t rows r).success ≡ false)
    (retryable : (turn_result w t rows r).retryable ≡ true) where
  failing_turn-retries :
      r.retry_count < w.config.max_retries
      → w.config.max_retries ≤ r.max_retries
      → (r' : OutboxEventRow) × (row_at id (poll_turn w t rows).0 ≡ some r')
        × (r'.retry_count ≡ r.retry_count + 1)
        × (r'.max_retries ≡ r.max_retries)
  unfolding event_decision decide_retry start_processing map_row_to_event
  failing_turn-retries more allows = (
    turn_row w t rows r,
    rw (row_at-poll_turn w t rows id (Sound-Unique rows sound) works, found),
    ground (arith, row_at-id id rows {r = r} found),
    ground (arith, row_at-id id rows {r = r} found),
  )

  failing_turn-gives_up :
      w.config.max_retries ≤ r.retry_count
      → (r' : OutboxEventRow) × (row_at id (poll_turn w t rows).0 ≡ some r')
        × (is_dlq r'.status ≡ true)
        × (r'.retry_count ≡ r.retry_count)
  unfolding event_decision decide_retry start_processing map_row_to_event
  failing_turn-gives_up spent = (
    turn_row w t rows r,
    rw (row_at-poll_turn w t rows id (Sound-Unique rows sound) works, found),
    ground (arith, row_at-id id rows {r = r} found),
    ground (arith, row_at-id id rows {r = r} found),
  )

run_poll_loop-cons :
    (w : Worker) (t : Turn) (turns : List Turn) (rows : Table)
    → t.stopped ≡ false
    → (run_poll_loop w (t ∷ turns) rows).0 ≡ (run_poll_loop w turns (poll_turn w t rows).0).0
unfolding run_poll_loop
run_poll_loop-cons w t turns rows runs =
    ap
      (λ b.
        (if◌then◌else◌ {A = Table × List TurnResult} b (rows, [])
          (
            (run_poll_loop w turns (poll_turn w t rows).0).0,
            (poll_turn w t rows).1 ∷ (run_poll_loop w turns (poll_turn w t rows).0).1,
          )).0)
      runs

run_poll_loop-nil : (w : Worker) (rows : Table) → (run_poll_loop w [] rows).0 ≡ rows
unfolding run_poll_loop
run_poll_loop-nil w rows = refl

impossible :
    (w : Worker) (r : OutboxEventRow)
    → r.retry_count + 0 ≡ w.config.max_retries + 1
    → r.retry_count ≤ w.config.max_retries
    → ⊥
impossible w r count within = omega arith

-- An event that fails whenever it is claimed is retried until the worker's limit is reached, and the
-- next turn that claims it moves it to the dead letter queue: `max_retries + 1` deliveries in all
-- for a new event. The table is sound at first, each turn's statements run, and the event's row
-- allows as many retries as the worker.
pub run_poll_loop-gives_up :
    (w : Worker) (id : Text) (turns : List Turn) (rows : Table) (r : OutboxEventRow)
    → Sound rows
    → row_at id rows ≡ some r
    → w.config.max_retries ≤ r.max_retries
    → r.retry_count + length turns ≡ w.config.max_retries + 1
    → r.retry_count ≤ w.config.max_retries
    → FailingTurns w id turns rows
    → (r' : OutboxEventRow) × (row_at id (run_poll_loop w turns rows).0 ≡ some r')
      × (is_dlq r'.status ≡ true)
      × (r'.retry_count ≡ w.config.max_retries)
run_poll_loop-gives_up w id [] rows r sound found allows count within failing =
    elim (impossible w r count within) [ ]
run_poll_loop-gives_up w id (t ∷ []) rows r sound found allows count within
      (runs, works, claimed, fails, rest) =
    let (r', found', dead, same) =
      failing_turn-gives_up w t rows id r sound works found claimed (fails r found).0
        (fails r found).1 (omega arith) in
    (
      r',
      rw (run_poll_loop-cons w t [] rows runs, run_poll_loop-nil w (poll_turn w t rows).0) found',
      dead,
      omega (arith, same),
    )
run_poll_loop-gives_up w id (t ∷ t' ∷ turns) rows r sound found allows count within
      (runs, works, claimed, fails, rest) =
    let (r₁, found₁, counted, same) =
      failing_turn-retries w t rows id r sound works found claimed (fails r found).0
        (fails r found).1 (omega arith) allows in
    let (r', found', dead, at_limit) =
      run_poll_loop-gives_up w id (t' ∷ turns) (poll_turn w t rows).0 r₁
        (Reach-Sound sound (poll_turn-Reach w t rows done)) found₁ (omega arith) (omega arith)
        (omega arith) rest in
    (r', rw (run_poll_loop-cons w t (t' ∷ turns) rows runs) found', dead, at_limit)
