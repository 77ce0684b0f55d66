-- ===== src/Worker/Scheduler.antt =====
-- packages/worker/src/maintenance-scheduler.ts, over the maintenance of the adapter for PostgreSQL. What
-- happens to a scheduler is a sequence of occurrences: its calls, the ticks of its intervals, and the end
-- of a recovery that a tick has begun. The statement of a clean-up stands for the tick that sends it.
pub mod Runs
use outboxy.Base.{
  ℕ, zero, suc, ◌+◌, ◌-◌, Bool, true, false, not, ◌&&◌, List, [], ◌∷◌, ltb, if◌then◌else◌,
}
use outboxy.Sql.Update.{Table}
use outboxy.Postgres.Errors.{Session}
use outboxy.Postgres.Inbox.{InboxTable}
use outboxy.Postgres.Maintenance.{
  recover_stale_events, cleanup_stale_idempotency_keys, cleanup_processed_inbox_events,
}

pub record MaintenanceSchedulerConfig : Type 0 where
  pub stale_event_threshold_ms : ℕ
  pub idempotency_cleanup_enabled : Bool
  pub idempotency_retention_days : ℕ
  pub inbox_cleanup_enabled : Bool
  pub inbox_retention_days : ℕ

-- A variable for a timer: whether it is set, and how many intervals that were ever put into it still
-- tick.
pub record Interval : Type 0 where
  pub timer : Bool
  pub ticking : ℕ

pub record Scheduler : Type 0 where
  pub stale_recovery : Interval
  pub stale_recovery_running : Bool
  -- Calls of `recoverStaleEvents` that have not ended.
  pub recoveries : ℕ
  pub idempotency_cleanup : Interval
  pub inbox_cleanup : Interval
  pub rows : Table
  pub inbox : InboxTable

-- `timer = setInterval(...)`.
abbrev pub set_interval : Interval → Interval
set_interval i = record { timer = true; ticking = i.ticking + 1 }

-- `if (timer) { clearInterval(timer); timer = null; }`.
abbrev pub clear_interval : Interval → Interval
clear_interval i = if i.timer then record { timer = false; ticking = i.ticking - 1 } else i

unfoldable pub start : MaintenanceSchedulerConfig → Scheduler → Scheduler
start c m = record m {
  stale_recovery = set_interval m.stale_recovery;
  idempotency_cleanup =
      (if c.idempotency_cleanup_enabled
        then set_interval m.idempotency_cleanup
        else m.idempotency_cleanup);
  inbox_cleanup =
      (if c.inbox_cleanup_enabled then set_interval m.inbox_cleanup else m.inbox_cleanup);
}

unfoldable pub stop : Scheduler → Scheduler
stop m = record m {
  stale_recovery = clear_interval m.stale_recovery;
  idempotency_cleanup = clear_interval m.idempotency_cleanup;
  inbox_cleanup = clear_interval m.inbox_cleanup;
}

-- A tick of the recovery, up to its call: it is passed over while one runs.
unfoldable pub stale_tick : Scheduler → Scheduler
stale_tick m =
    if ltb 0 m.stale_recovery.ticking && not m.stale_recovery_running
    then record m { stale_recovery_running = true; recoveries = m.recoveries + 1 }
    else m

-- A call of the recovery ends, by its statement or its error, which is only logged.
unfoldable pub stale_ends : MaintenanceSchedulerConfig → Session → Scheduler → Scheduler
stale_ends c s m =
    if ltb 0 m.recoveries
    then record m {
      rows = (recover_stale_events s c.stale_event_threshold_ms m.rows).0;
      stale_recovery_running = false;
      recoveries = m.recoveries - 1;
    }
    else m

unfoldable pub idempotency_tick : MaintenanceSchedulerConfig → Session → Scheduler → Scheduler
idempotency_tick c s m =
    if ltb 0 m.idempotency_cleanup.ticking
    then record m {
      rows = (cleanup_stale_idempotency_keys s c.idempotency_retention_days m.rows).0;
    }
    else m

unfoldable pub inbox_tick : MaintenanceSchedulerConfig → Session → Scheduler → Scheduler
inbox_tick c s m =
    if ltb 0 m.inbox_cleanup.ticking
    then record m { inbox = (cleanup_processed_inbox_events s c.inbox_retention_days m.inbox).0 }
    else m

pub data Occurrence : Type 0 where
  started stopped stale_ticks : Occurrence
  stale_ended idempotency_ticks inbox_ticks : Session → Occurrence

unfoldable pub occur : MaintenanceSchedulerConfig → Occurrence → Scheduler → Scheduler
occur c started m = start c m
occur c stopped m = stop m
occur c stale_ticks m = stale_tick m
occur c (stale_ended s) m = stale_ends c s m
occur c (idempotency_ticks s) m = idempotency_tick c s m
occur c (inbox_ticks s) m = inbox_tick c s m

unfoldable pub run : MaintenanceSchedulerConfig → List Occurrence → Scheduler → Scheduler
run c [] m = m
run c (o ∷ os) m = run c os (occur c o m)
