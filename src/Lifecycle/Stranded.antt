-- ===== src/Lifecycle/Stranded.antt =====
-- An event in `processing` whose retries are used up: which statements can still change its row.
use outboxy.Base.{◌≡◌, ◌≤◌, true, false, some, Text, member}
use outboxy.Schema.{OutboxEventRow, is_processing}
use outboxy.Sql.Update.{Table, row_at, Unique}
use outboxy.Postgres.EventRepository.{succeeded_ids}
use outboxy.Lifecycle.{
  Step, Reach, create, claim, succeed, retry, dead_letter, recover, clean_up, replay, replay_range,
  done, then,
}
use outboxy.Lifecycle.Invariant.{Sound, Reach-Sound}
use outboxy.Lifecycle.Unchanged.{
  create_event-spares, claim_pending_events-spares, mark_succeeded-spares, schedule_retry-spares,
  move_to_dlq-spares, recover_stale_events-spares, cleanup-spares, replay_update-spares,
  replay_range_update-spares,
}

-- A row that is being processed and has no retry left.
pub record Stranded (r : OutboxEventRow) : Type 0 where
  pub in_processing : is_processing r.status ≡ true
  pub spent : r.max_retries ≤ r.retry_count

-- The statement is none that settles the event as delivered or dead, or that resets it by its id.
abbrev pub Spares : Text → {rows rows' : Table} → Step rows rows' → Type 0
Spares id (succeed s results) = member id (succeeded_ids results) ≡ false
Spares id (dead_letter s event_ids messages) = member id event_ids ≡ false
Spares id (replay_range s event_ids) = member id event_ids ≡ false
Spares id _ = Unit

abbrev pub SparesAll : Text → {start rows : Table} → Reach start rows → Type 0
SparesAll id done = Unit
SparesAll id (then r s) = SparesAll id r × Spares id s

Step-Spares :
    {rows rows' : Table} (id : Text) (r : OutboxEventRow) (step : Step rows rows')
    → Unique rows
    → row_at id rows ≡ some r
    → Stranded r
    → Spares id step
    → row_at id rows' ≡ some r
Step-Spares {rows} id r (create s id' input fresh) u found h x =
    create_event-spares s id rows r found id' input
Step-Spares {rows} id r (claim s n) u found h x =
    claim_pending_events-spares s id rows r found h.in_processing n u
Step-Spares {rows} id r (succeed s results) u found h x =
    mark_succeeded-spares s id rows r found results x
Step-Spares {rows} id r (retry s event_ids messages config) u found h x =
    schedule_retry-spares s id rows r found h.spent event_ids messages config
Step-Spares {rows} id r (dead_letter s event_ids messages) u found h x =
    move_to_dlq-spares s id rows r found event_ids messages x
Step-Spares {rows} id r (recover s threshold_ms) u found h x =
    recover_stale_events-spares s id rows r found h.spent threshold_ms
Step-Spares {rows} id r (clean_up s days) u found h x =
    cleanup-spares s id rows r found h.in_processing days
Step-Spares {rows} id r (replay s id' previous_status) u found h x =
    replay_update-spares s id rows r found h.in_processing id' previous_status
Step-Spares {rows} id r (replay_range s event_ids) u found h x =
    replay_range_update-spares s id rows r found event_ids x

-- An event in `processing` with no retry left stays there: no claim, no scheduled retry, no stale
-- recovery, no clean-up and no replay changes its row, in any order and at any time, as long as no
-- statement marks it as delivered or dead or resets it by its id. The table is sound at first.
pub Reach-strands :
    {start rows : Table} (id : Text) (r : OutboxEventRow) (history : Reach start rows)
    → Sound start
    → row_at id start ≡ some r
    → Stranded r
    → SparesAll id history
    → row_at id rows ≡ some r
unfolding Sound
Reach-strands id r done sound found h spares = found
Reach-strands {start} id r (then {rows} history step) sound found h spares =
    Step-Spares {rows = rows} id r step (Reach-Sound sound history).1
      (Reach-strands id r history sound found h spares.0) h spares.1
