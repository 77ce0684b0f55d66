-- ===== src/Worker/Scheduler/Runs.antt =====
-- What a scheduler does over any sequence of occurrences.
use outboxy.Base.{
  ◌≤◌, ◌≡◌, not, ◌&&◌, List, [], ◌∷◌, ltb, if◌then◌else◌, arith, Bool-cases, inl, inr,
}
use outboxy.Sql.Update.{Table}
use outboxy.Lifecycle.{Reach, recover, clean_up, then as next, done}
use outboxy.Worker.Scheduler.{
  MaintenanceSchedulerConfig, Scheduler, start, stop, stale_tick, stale_ends, idempotency_tick,
  inbox_tick, Occurrence, started, stopped, stale_ticks, stale_ended, idempotency_ticks,
  inbox_ticks, occur, run,
}

-- The flag says whether a recovery runs, and no two run.
abbrev pub IsGuarded : Scheduler → Type 0
IsGuarded m = m.recoveries ≡ (if m.stale_recovery_running then 1 else 0)

abbrev Ok : Table → Scheduler → Type 0
Ok before m = Reach before m.rows × IsGuarded m

occur-Ok :
    (c : MaintenanceSchedulerConfig) (o : Occurrence) (before : Table) (m : Scheduler)
    → Ok before m
    → Ok before (occur c o m)
unfolding occur start stop stale_tick stale_ends idempotency_tick inbox_tick
occur-Ok c started before m h = h
occur-Ok c stopped before m h = h
occur-Ok c stale_ticks before m h =
    elim (Bool-cases (ltb 0 m.stale_recovery.ticking && not m.stale_recovery_running)) [
      | inl begins ↦ rw begins (h.0, ground (arith, h.1))
      | inr passes ↦ rw passes h
    ]
occur-Ok c (stale_ended s) before m h = elim (Bool-cases (ltb 0 m.recoveries)) [
  | inl ends ↦ rw ends (next h.0 (recover s c.stale_event_threshold_ms), ground (arith, h.1))
  | inr idle ↦ rw idle h
]
occur-Ok c (idempotency_ticks s) before m h =
    elim (Bool-cases (ltb 0 m.idempotency_cleanup.ticking)) [
      | inl ticks ↦ rw ticks (next h.0 (clean_up s c.idempotency_retention_days), h.1)
      | inr quiet ↦ rw quiet h
    ]
occur-Ok c (inbox_ticks s) before m h = elim (Bool-cases (ltb 0 m.inbox_cleanup.ticking)) [
  | inl ticks ↦ rw ticks h
  | inr quiet ↦ rw quiet h
]

run-Ok :
    (c : MaintenanceSchedulerConfig) (os : List Occurrence) (before : Table) (m : Scheduler)
    → Ok before m
    → Ok before (run c os m)
unfolding run
run-Ok c [] before m h = h
run-Ok c (o ∷ os) before m h = run-Ok c os before (occur c o m) (occur-Ok c o before m h)

-- Whatever happens to a scheduler, in any order, it changes the table of events only by a sequence of
-- the adapter's statements, and no two of its recoveries run at one time, also if it is started twice
-- or the interval is shorter than a recovery. No recovery runs at first, or one that the flag tells of.
pub run-Reach :
    (c : MaintenanceSchedulerConfig) (os : List Occurrence) (m : Scheduler)
    → IsGuarded m
    → Reach m.rows (run c os m).rows × ((run c os m).recoveries ≤ 1)
run-Reach c os m guarded =
    let (reached, guarded') = run-Ok c os m.rows m (done, guarded) in
    (
      reached,
      elim (Bool-cases (run c os m).stale_recovery_running) [
        | inl running ↦ ground arith
        | inr idle ↦ ground arith
      ],
    )
