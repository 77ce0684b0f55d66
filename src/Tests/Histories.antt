-- ===== src/Tests/Histories.antt =====
-- Histories of a table: statements, turns and loops.
use outboxy.Base.{
  ℕ, ◌≡◌, refl, true, false, [], ◌∷◌, some, codes, get, member, arith, select, text_eq, set, find,
  includes, lower_unit, to_lower_case, ◌++◌, List,
}
use outboxy.Schema.{OutboxEventRow, map_row_to_event, is_processing, is_dlq, EventStatus}
use outboxy.Sql.Update.{Table, row_at, Unique, map_option, ids, returning, update_where}
use outboxy.Postgres.EventRepository.{
  claimed_ids, claim_pending_events, start_processing, is_claimable, mark_succeeded, schedule_retry,
  move_to_dlq, set_dlq, set_retry, set_succeeded, backoff_delay,
}
use outboxy.Worker.Execute.{
  Worker, execute_batch_processing, collect_from, collect_maps, dlq_group, dlq_samples, mark_group,
  process_collected, processing_result, publish_events, record_result, retry_group, retry_samples,
  settle,
}
use outboxy.Worker.Execute.Collect.{Explained, result_of}
use outboxy.Worker.Loop.{Turn, poll_turn, run_poll_loop, finish_turn, process_events}
use outboxy.Worker.Loop.Turns.{TurnWorks, turn_row, row_at-poll_turn, turn_events}
use outboxy.Lifecycle.{Reach, done, then, claim, recover}
use outboxy.Lifecycle.WellFormedRows.{WellFormed}
use outboxy.Lifecycle.Invariant.{Sound, Reach-Sound}
use outboxy.Lifecycle.Turns.{
  FailingTurns, turn_result, poll_turn-leaves_processing, run_poll_loop-gives_up,
}
use outboxy.Tests.Data.{order_row, shop_config, shop_worker, at_time, failing_turn, refusal}
use outboxy.Sql.Sort.{order_by_created_at, insert_by_created_at}
use outboxy.Publisher.{resolved}
use mathlib.Core.Path.{subst, sym}
use outboxy.Postgres.Errors.{with_error_mapping}
use outboxy.Worker.Retry.{decide_retry}
use outboxy.Worker.Batch.{group_batch_results, decision_of, group_from, push_decision}
use outboxy.Worker.Metrics.{
  record_failure, categorize_error, record_dlq, record_retry, record_success,
}
use outboxy.Lifecycle.Stranded.{Reach-strands}
use outboxy.Postgres.Maintenance.{recover_stale_events}
use outboxy.Schema.Events.{event_ids}
use outboxy.Postgres.EventRepository.Claimed.{claimed_events}
use outboxy.Lifecycle.Flights.{Flight, flights, claims, begin}
use outboxy.Lifecycle.Flights.Runs.{Orderly, Run-Orderly}

abbrev one_order : Table
one_order = order_row ∷ []

order_row-WellFormed : WellFormed order_row
order_row-WellFormed = ground arith

one_order-Sound : Sound one_order
unfolding Sound outboxy.Sql.Update.ids member
one_order-Sound = ((order_row-WellFormed, tt), (refl, tt))

-- A worker that retries once.
abbrev hasty_worker : Worker
hasty_worker = record shop_worker { config = record shop_config { max_retries = 1 } }

-- The history in which a claim is followed by a recovery.
abbrev claimed_order : Table
claimed_order = (claim_pending_events (at_time 50) 1 one_order).0

claimed_order-Reach : Reach one_order claimed_order
claimed_order-Reach = then done (claim (at_time 50) 1)

Reach-Sound_example : Sound claimed_order
Reach-Sound_example = Reach-Sound one_order-Sound claimed_order-Reach

abbrev first_turn : Turn
first_turn = failing_turn 50

abbrev second_turn : Turn
second_turn = failing_turn 2000000

first_turn-claims : member (codes "order") (claimed_ids (at_time 50) 1 one_order) ≡ true
unfolding claimed_ids member ids order_by_created_at select insert_by_created_at text_eq
first_turn-claims = refl

first_turn-Explained :
    Explained true
      (resolved ((codes "order", refusal) ∷ []))
      5
      (turn_events hasty_worker first_turn one_order)
unfolding claimed_ids member ids order_by_created_at select insert_by_created_at text_eq returning
    map_row_to_event result_of get start_processing
first_turn-Explained = (refl, tt)

first_turn-TurnWorks : TurnWorks hasty_worker first_turn one_order
first_turn-TurnWorks = record {
  claim_works = refl;
  batch_works = record { succeeded_works = refl; retried_works = refl; dlq_works = refl };
  explained = first_turn-Explained;
}

order_in_table : row_at (codes "order") one_order ≡ some order_row
unfolding row_at text_eq
order_in_table = refl

row_at-poll_turn_example :
    row_at (codes "order") (poll_turn hasty_worker first_turn one_order).0
    ≡ map_option (turn_row hasty_worker first_turn one_order) (row_at (codes "order") one_order)
unfolding member ids
row_at-poll_turn_example =
    row_at-poll_turn hasty_worker first_turn one_order (codes "order") (refl, tt)
      first_turn-TurnWorks

poll_turn-leaves_processing_example :
    (r' : OutboxEventRow) × (row_at (codes "order") (poll_turn hasty_worker first_turn one_order).0
      ≡ some r')
    × (is_processing r'.status ≡ false)
poll_turn-leaves_processing_example =
    poll_turn-leaves_processing hasty_worker first_turn one_order (codes "order") order_row
      one_order-Sound first_turn-TurnWorks order_in_table first_turn-claims (omega arith)

fails_for_now :
    (w : Worker) (now : ℕ) (rows : Table) (r : OutboxEventRow)
    → ((turn_result w (failing_turn now) rows r).success ≡ false)
      × ((turn_result w (failing_turn now) rows r).retryable ≡ true)
unfolding result_of get
fails_for_now w now rows r = ground arith

-- The table after the first turn.
abbrev retried_order : Table
retried_order =
    record order_row {
      status = EventStatus.failed;
      retry_count = 1;
      last_error = some (codes "HTTP 503");
      updated_at = 50;
      processing_started_at = some 50;
      next_retry_at = some 1000050;
    }
    ∷ []

first_turn-table : (poll_turn hasty_worker first_turn one_order).0 ≡ retried_order
unfolding poll_turn claim_pending_events returning member ids order_by_created_at select
    insert_by_created_at text_eq execute_batch_processing get map_row_to_event start_processing
    record_failure group_batch_results set decide_retry schedule_retry find includes lower_unit
    to_lower_case with_error_mapping backoff_delay claimed_ids is_claimable mark_succeeded
    move_to_dlq set_dlq set_retry set_succeeded update_where decision_of group_from push_decision
    collect_from collect_maps dlq_group dlq_samples mark_group process_collected processing_result
    publish_events record_result retry_group retry_samples settle finish_turn process_events
    categorize_error record_dlq record_retry record_success
first_turn-table = refl

second_turn-fails : FailingTurns hasty_worker (codes "order") (second_turn ∷ []) retried_order
unfolding claimed_ids member ids order_by_created_at select insert_by_created_at text_eq returning
    map_row_to_event result_of get start_processing
second_turn-fails = (
  refl,
  record {
    claim_works = refl;
    batch_works = record { succeeded_works = refl; retried_works = refl; dlq_works = refl };
    explained = (refl, tt);
  },
  refl,
  (λ r found. fails_for_now hasty_worker 2000000 retried_order r),
  tt,
)

both_turns-fail :
    FailingTurns hasty_worker (codes "order") (first_turn ∷ second_turn ∷ []) one_order
both_turns-fail = (
  refl,
  first_turn-TurnWorks,
  first_turn-claims,
  (λ r found. fails_for_now hasty_worker 50 one_order r),
  subst (FailingTurns hasty_worker (codes "order") (second_turn ∷ [])) (sym first_turn-table)
      second_turn-fails,
)

run_poll_loop-gives_up_example :
    (r' : OutboxEventRow) × (row_at
        (codes "order")
        (run_poll_loop hasty_worker (first_turn ∷ second_turn ∷ []) one_order).0
      ≡ some r')
    × (is_dlq r'.status ≡ true)
    × (r'.retry_count ≡ 1)
run_poll_loop-gives_up_example =
    run_poll_loop-gives_up hasty_worker (codes "order") (first_turn ∷ second_turn ∷ []) one_order
      order_row one_order-Sound order_in_table (omega arith) refl (omega arith) both_turns-fail

abbrev stuck_row : OutboxEventRow
stuck_row = record order_row {
  status = EventStatus.processing;
  retry_count = 2;
  processing_started_at = some 20;
}

stuck_row-WellFormed : WellFormed stuck_row
stuck_row-WellFormed = ground arith

stuck_row-Sound : Sound (stuck_row ∷ [])
unfolding Sound ids member
stuck_row-Sound = ((stuck_row-WellFormed, tt), (refl, tt))

stuck_row-found : row_at (codes "order") (stuck_row ∷ []) ≡ some stuck_row
unfolding row_at text_eq
stuck_row-found = refl

-- A recovery and a claim, long after the event got stuck.
Reach-strands_example :
    row_at
      (codes "order")
      (claim_pending_events
        (at_time 900000001)
        10
        (recover_stale_events (at_time 900000000) 300000 (stuck_row ∷ [])).0).0
    ≡ some stuck_row
Reach-strands_example =
    Reach-strands (codes "order") stuck_row
      (then (then done (recover (at_time 900000000) 300000)) (claim (at_time 900000001) 10))
      stuck_row-Sound stuck_row-found (record { in_processing = refl; spent = omega arith })
      ((tt, tt), tt)

-- One worker claims the event; another finds nothing while it is held.
abbrev after_claim : Table
after_claim = (claim_pending_events (at_time 50) 1 one_order).0

abbrev first_flights : List Flight
first_flights = flights (codes "w1") (event_ids (claimed_events (at_time 50) 1 one_order)) ++ []

abbrev both_flights : List Flight
both_flights =
    flights (codes "w2") (event_ids (claimed_events (at_time 60) 1 after_claim)) ++ first_flights

Run-Orderly_example : Orderly (claim_pending_events (at_time 60) 1 after_claim).0 both_flights
Run-Orderly_example =
    Run-Orderly one_order-Sound
      (claims (claims begin (codes "w1") (at_time 50) 1 refl) (codes "w2") (at_time 60) 1 refl)
