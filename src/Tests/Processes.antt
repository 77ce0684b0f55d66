-- ===== src/Tests/Processes.antt =====
-- A scheduler, a cluster and the detection of adapters at concrete inputs.
use outboxy.Worker.Cluster.{
  WorkerCluster, new_cluster, Occurrence, start_called, initialize_settled, stop_called,
  stop_continued, occur, run, start, stop, next_worker, initialize_settles, stop_continues,
}
use outboxy.Worker.Cluster.Pods.{HasNoDash, pod, run-shares_ids}
use outboxy.Base.{none, some, includes, to_lower_case, lower_unit, if◌then◌else◌}
use outboxy.Detection.{DatabaseType, detected, detect_database_type, can_handle_mysql, adapters}
use outboxy.Detection.Urls.{detect-mysql_url}
use outboxy.Base.{◌≡◌, ◌≤◌, refl, true, false, [], ◌∷◌, List, codes}
use outboxy.Lifecycle.{Reach}
use outboxy.Worker.Scheduler
use outboxy.Worker.Scheduler.{
  MaintenanceSchedulerConfig, Interval, Scheduler, started, stale_ticks, stale_ended,
}
use outboxy.Worker.Scheduler.Runs.{run-Reach}
use outboxy.Worker.Cluster.Shutdown.{first, is_settled, AreAlone, run-shut_down}
use outboxy.Tests.Data.{order_row, at_time}

abbrev daily : MaintenanceSchedulerConfig
daily = record {
  stale_event_threshold_ms = 300000;
  idempotency_cleanup_enabled = true;
  idempotency_retention_days = 30;
  inbox_cleanup_enabled = false;
  inbox_retention_days = 30;
}

abbrev unset : Interval
unset = record { timer = false; ticking = 0 }

abbrev idle_scheduler : Scheduler
idle_scheduler = record {
  stale_recovery = unset;
  stale_recovery_running = false;
  recoveries = 0;
  idempotency_cleanup = unset;
  inbox_cleanup = unset;
  rows = order_row ∷ [];
  inbox = [];
}

-- A second tick comes while the first one's recovery runs.
abbrev slow_recovery : List Scheduler.Occurrence
slow_recovery = started ∷ stale_ticks ∷ stale_ticks ∷ stale_ended (at_time 900000000) ∷ []

run-Reach_example :
    Reach (order_row ∷ []) (Scheduler.run daily slow_recovery idle_scheduler).rows
    × ((Scheduler.run daily slow_recovery idle_scheduler).recoveries ≤ 1)
run-Reach_example = run-Reach daily slow_recovery idle_scheduler refl

abbrev shop_cluster : WorkerCluster
shop_cluster = new_cluster (some (codes "shop")) none (codes "host") (codes "0")

-- The second publisher refuses to initialize; then the cluster is stopped, and started and stopped again.
abbrev two_lives : List Occurrence
two_lives =
    start_called 3
    ∷ initialize_settled false 0
    ∷ initialize_settled true 0
    ∷ stop_called
    ∷ stop_continued 0
    ∷ stop_continued 0
    ∷ start_called 1
    ∷ initialize_settled false 0
    ∷ stop_called
    ∷ stop_continued 0
    ∷ stop_continued 0
    ∷ []

two_lives-AreAlone : AreAlone two_lives shop_cluster
unfolding occur start stop next_worker initialize_settles stop_continues new_cluster
two_lives-AreAlone = (refl, (tt, (tt, (refl, (tt, (tt, (refl, (tt, (refl, (tt, (tt, tt)))))))))))

two_lives-quiet : (run two_lives shop_cluster).running ≡ false
unfolding run occur start stop next_worker initialize_settles stop_continues new_cluster
two_lives-quiet = refl

two_lives-settled : is_settled (run two_lives shop_cluster) ≡ true
unfolding run occur start stop next_worker initialize_settles stop_continues new_cluster
two_lives-settled = refl

run-shut_down_example :
    (run two_lives shop_cluster).shut_down ≡ first (run two_lives shop_cluster).made
run-shut_down_example =
    run-shut_down (some (codes "shop")) none (codes "host") (codes "0") two_lives two_lives-AreAlone
      two_lives-quiet two_lives-settled

proxied_url : can_handle_mysql (codes "mysql://u:p@db/shop?proxy_host=x") ≡ true
unfolding can_handle_mysql to_lower_case lower_unit
proxied_url = refl

detect-mysql_url_example :
    detect_database_type (codes "mysql://u:p@db/shop?proxy_host=x") none adapters ≡ (
      if includes (codes "host=") (to_lower_case (codes "mysql://u:p@db/shop?proxy_host=x"))
      then detected DatabaseType.postgresql true
      else detected DatabaseType.mysql false)
detect-mysql_url_example = detect-mysql_url (codes "mysql://u:p@db/shop?proxy_host=x") proxied_url

outboxy-HasNoDash : HasNoDash (codes "outboxy")
outboxy-HasNoDash = (refl, (refl, (refl, (refl, (refl, (refl, (refl, tt)))))))

worker-HasNoDash : HasNoDash (codes "worker")
worker-HasNoDash = (refl, (refl, (refl, (refl, (refl, (refl, tt))))))

abbrev one_start : List Occurrence
one_start = start_called 2 ∷ initialize_settled false 0 ∷ initialize_settled false 0 ∷ []

run-shares_ids_example :
    (run one_start (
      new_cluster none none
        (pod (codes "outboxy") (codes "worker") (codes "7d9f"))
        (codes "0"))).started
    ≡ (run one_start (
        new_cluster none none
          (pod (codes "outboxy") (codes "worker") (codes "x2kq"))
          (codes "1"))).started
run-shares_ids_example =
    run-shares_ids (codes "outboxy") (codes "worker") (codes "7d9f") (codes "x2kq") (codes "0")
      (codes "1") one_start outboxy-HasNoDash worker-HasNoDash
