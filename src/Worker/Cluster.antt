-- ===== src/Worker/Cluster.antt =====
-- packages/worker/src/core/worker-cluster.ts. What happens to a cluster is a sequence of occurrences: its
-- calls, each up to its first `await`, and what ends an `await` of a call. A publisher is the number of
-- the factory's call that made it. The promise of `start` settles only when its workers have stopped, so
-- that a start is followed to the point where it starts them.
pub mod Shutdown
pub mod Overlaps
pub mod Pods
use outboxy.Base.{
  ℕ, zero, suc, ◌+◌, ◌*◌, Bool, true, false, List, [], ◌∷◌, ◌++◌, if◌then◌else◌, length, Text,
  Option, ◌or_else◌, ◌==◌, none, some,
}
use outboxy.Dialect.Render.{decimal}
use outboxy.Worker.Identity.{resolve_worker_id}

-- A start that awaits `initialize` of the publisher for the worker `index`, with so many workers after it.
pub record PendingStart : Type 0 where
  pub index : ℕ
  pub left : ℕ

-- What a stop awaits.
pub data PendingStop : Type 0 where
  workers_stop publishers_shut_down : PendingStop

pub record WorkerCluster : Type 0 where
  pub workers : List Text
  pub publishers : List ℕ
  pub running : Bool
  pub worker_id_prefix : Text
  -- The calls that have not ended.
  pub starting : List PendingStart
  pub stopping : List PendingStop
  -- The calls of the factory, and what was started, stopped and shut down, in order.
  pub made : ℕ
  pub started : List Text
  pub stopped : List Text
  pub shut_down : List ℕ

-- The parts of a text between its dashes, as many as `n` and one, joined again.
unfoldable pub first_parts : ℕ → Text → Text
first_parts n [] = []
first_parts zero (c ∷ s) = let rest = first_parts zero s in if c == b'-' then [] else c ∷ rest
first_parts (suc n) (c ∷ s) =
    let before = first_parts (suc n) s in
    let after = first_parts n s in if c == b'-' then c ∷ after else c ∷ before

-- The constructor.
unfoldable pub new_cluster : Option Text → Option Text → (host random : Text) → WorkerCluster
new_cluster worker_id_prefix config_worker_id host random = record {
  workers = [];
  publishers = [];
  running = false;
  worker_id_prefix =
      worker_id_prefix or_else first_parts 1 (resolve_worker_id config_worker_id host random).id;
  starting = [];
  stopping = [];
  made = 0;
  started = [];
  stopped = [];
  shut_down = [];
}

-- `${this.workerIdPrefix}-${i}`; the code of `-` is 45.
unfoldable pub worker_id : Text → ℕ → Text
worker_id prefix i = prefix ++ 45 ∷ decimal i

-- The loop of `start` at the worker `i`, up to its next `await`: of the publisher that it makes, or of the
-- workers, which it starts.
unfoldable pub next_worker : (i left : ℕ) → WorkerCluster → WorkerCluster
next_worker i zero m = record m { started = m.started ++ m.workers }
next_worker i (suc left) m = record m {
  publishers = m.publishers ++ m.made ∷ [];
  made = suc m.made;
  starting = m.starting ++ record { index = i; left = left } ∷ [];
}

unfoldable pub start : ℕ → WorkerCluster → WorkerCluster
start worker_count m =
    let began = next_worker 0 worker_count (record m { running = true }) in
    if m.running then m else began

-- `new OutboxWorker(...)` and `this.workers.push(worker)`.
abbrev pub with_worker : ℕ → WorkerCluster → WorkerCluster
with_worker i m = record m { workers = m.workers ++ worker_id m.worker_id_prefix i ∷ [] }

-- The element at an index, and the list without it.
abbrev pub take_out {ℓ} : {A : Type ℓ} → ℕ → List A → Option (A × List A)
take_out k [] = none
take_out zero (x ∷ xs) = some (x, xs)
take_out (suc k) (x ∷ xs) = elim (take_out k xs) [ none ↦ none | some (y, ys) ↦ some (y, x ∷ ys) ]

-- The `initialize` that a start awaits settles; if it rejects, so does the start.
unfoldable pub initialize_settles :
    Bool → Option (PendingStart × List PendingStart) → WorkerCluster → WorkerCluster
initialize_settles rejects none m = m
initialize_settles true (some (p, others)) m = record m { starting = others }
initialize_settles false (some (p, others)) m =
    next_worker (p.index + 1) p.left (with_worker p.index (record m { starting = others }))

unfoldable pub stop : WorkerCluster → WorkerCluster
stop m =
    if m.running
    then record m {
      running = false;
      stopped = m.stopped ++ m.workers;
      stopping = m.stopping ++ workers_stop ∷ [];
    }
    else m

-- What a stop awaits has settled. Errors of a worker's `stop` and of a publisher's `shutdown` are only
-- logged.
unfoldable pub stop_continues :
    Option (PendingStop × List PendingStop) → WorkerCluster → WorkerCluster
stop_continues none m = m
stop_continues (some (workers_stop, others)) m = record m {
  shut_down = m.shut_down ++ m.publishers;
  stopping = others ++ publishers_shut_down ∷ [];
}
stop_continues (some (publishers_shut_down, others)) m = record m {
  workers = [];
  publishers = [];
  stopping = others;
}

pub record ClusterStatus : Type 0 where
  pub running : Bool
  pub worker_count : ℕ
  pub worker_ids : List Text

unfoldable pub get_status : WorkerCluster → ClusterStatus
get_status m = record {
  running = m.running;
  worker_count = length m.workers;
  worker_ids = m.workers;
}

unfoldable pub calculate_pool_size : ℕ → ℕ
calculate_pool_size worker_count = worker_count * 2 + 1

-- The `k`th of the starts, or of the stops, that have not ended goes on.
pub data Occurrence : Type 0 where
  start_called : ℕ → Occurrence
  initialize_settled : (rejects : Bool) (k : ℕ) → Occurrence
  stop_called : Occurrence
  stop_continued : ℕ → Occurrence

unfoldable pub occur : Occurrence → WorkerCluster → WorkerCluster
occur (start_called n) m = start n m
occur (initialize_settled rejects k) m = initialize_settles rejects (take_out k m.starting) m
occur stop_called m = stop m
occur (stop_continued k) m = stop_continues (take_out k m.stopping) m

unfoldable pub run : List Occurrence → WorkerCluster → WorkerCluster
run [] m = m
run (o ∷ os) m = run os (occur o m)
