-- ===== src/Worker/Cluster/Shutdown.antt =====
-- No publisher of a cluster is left open, if its calls do not overlap.
use mathlib.Core.Bool.{true≢false}
use mathlib.Core.List.{append_assoc, append-nil}
use outboxy.Base.{
  ℕ, zero, suc, ◌+◌, ◌≡◌, refl, Bool, true, false, ◌&&◌, List, [], ◌∷◌, ◌++◌, Option, Text, ap, sym,
  ◌∙◌, is_empty,
}
use outboxy.Worker.Cluster.{
  WorkerCluster, PendingStart, workers_stop, publishers_shut_down, new_cluster, next_worker, start,
  stop, initialize_settles, stop_continues, Occurrence, start_called, initialize_settled,
  stop_called, stop_continued, occur, run,
}

-- The publishers that the first calls of the factory made.
unfoldable pub first : ℕ → List ℕ
first zero = []
first (suc n) = first n ++ n ∷ []

-- No call is in progress.
abbrev pub is_settled : WorkerCluster → Bool
is_settled m = is_empty m.starting && is_empty m.stopping

-- An occurrence that is a call finds no other in progress.
abbrev pub IsAlone : Occurrence → WorkerCluster → Type 0
IsAlone (start_called n) m = is_settled m ≡ true
IsAlone stop_called m = is_settled m ≡ true
IsAlone (initialize_settled rejects k) m = Unit
IsAlone (stop_continued k) m = Unit

abbrev pub AreAlone : List Occurrence → WorkerCluster → Type 0
AreAlone [] m = Unit
AreAlone (o ∷ os) m = IsAlone o m × AreAlone os (occur o m)

-- The stages of a cluster whose calls come alone.
data Stage : WorkerCluster → Type 0 where
  idle :
      {ws : List Text} {prefix : Text} {made : ℕ} {started stopped : List Text} {shut : List ℕ}
      → shut ≡ first made
      → Stage (record {
        workers = ws;
        publishers = [];
        running = false;
        worker_id_prefix = prefix;
        starting = [];
        stopping = [];
        made = made;
        started = started;
        stopped = stopped;
        shut_down = shut;
      })
  -- Also after a start that has thrown.
  runs :
      {ws : List Text} {ps : List ℕ} {prefix : Text} {made : ℕ} {started stopped : List Text}
      {shut : List ℕ}
      → shut ++ ps ≡ first made
      → Stage (record {
        workers = ws;
        publishers = ps;
        running = true;
        worker_id_prefix = prefix;
        starting = [];
        stopping = [];
        made = made;
        started = started;
        stopped = stopped;
        shut_down = shut;
      })
  starts :
      {ws : List Text} {ps : List ℕ} {prefix : Text} {p : PendingStart} {made : ℕ}
      {started stopped : List Text} {shut : List ℕ}
      → shut ++ ps ≡ first made
      → Stage (record {
        workers = ws;
        publishers = ps;
        running = true;
        worker_id_prefix = prefix;
        starting = p ∷ [];
        stopping = [];
        made = made;
        started = started;
        stopped = stopped;
        shut_down = shut;
      })
  stops :
      {ws : List Text} {ps : List ℕ} {prefix : Text} {made : ℕ} {started stopped : List Text}
      {shut : List ℕ}
      → shut ++ ps ≡ first made
      → Stage (record {
        workers = ws;
        publishers = ps;
        running = false;
        worker_id_prefix = prefix;
        starting = [];
        stopping = workers_stop ∷ [];
        made = made;
        started = started;
        stopped = stopped;
        shut_down = shut;
      })
  closes :
      {ws : List Text} {ps : List ℕ} {prefix : Text} {made : ℕ} {started stopped : List Text}
      {shut : List ℕ}
      → shut ≡ first made
      → Stage (record {
        workers = ws;
        publishers = ps;
        running = false;
        worker_id_prefix = prefix;
        starting = [];
        stopping = publishers_shut_down ∷ [];
        made = made;
        started = started;
        stopped = stopped;
        shut_down = shut;
      })

with_publisher :
    (shut ps : List ℕ) (made : ℕ)
    → shut ++ ps ≡ first made
    → shut ++ (ps ++ made ∷ []) ≡ first (suc made)
unfolding first
with_publisher shut ps made all =
    sym (append_assoc shut ps (made ∷ [])) ∙ ap (λ ns. ns ++ made ∷ []) all

-- The loop of a start, between its awaits.
next_worker-Stage :
    (i left : ℕ) (ws : List Text) (ps : List ℕ) (prefix : Text) (made : ℕ)
    (started stopped : List Text) (shut : List ℕ)
    → shut ++ ps ≡ first made
    → Stage (
        next_worker i left (record {
          workers = ws;
          publishers = ps;
          running = true;
          worker_id_prefix = prefix;
          starting = [];
          stopping = [];
          made = made;
          started = started;
          stopped = stopped;
          shut_down = shut;
        }))
unfolding next_worker
next_worker-Stage i zero ws ps prefix made started stopped shut all = runs all
next_worker-Stage i (suc left) ws ps prefix made started stopped shut all =
    starts (with_publisher shut ps made all)

occur-Stage : (o : Occurrence) {m : WorkerCluster} → Stage m → IsAlone o m → Stage (occur o m)
unfolding occur start stop initialize_settles stop_continues
occur-Stage (start_called n) (idle all) h = next_worker-Stage 0 n _ _ _ _ _ _ _ (append-nil _ ∙ all)
occur-Stage (start_called n) (runs all) h = runs all
occur-Stage (start_called n) (starts all) h = absurd (true≢false (sym h))
occur-Stage (start_called n) (stops all) h = absurd (true≢false (sym h))
occur-Stage (start_called n) (closes all) h = absurd (true≢false (sym h))
occur-Stage (initialize_settled rejects k) (idle all) h = idle all
occur-Stage (initialize_settled rejects k) (runs all) h = runs all
occur-Stage (initialize_settled true zero) (starts all) h = runs all
occur-Stage (initialize_settled false zero) (starts {p = p} all) h =
    next_worker-Stage (p.index + 1) p.left _ _ _ _ _ _ _ all
occur-Stage (initialize_settled rejects (suc k)) (starts all) h = starts all
occur-Stage (initialize_settled rejects k) (stops all) h = stops all
occur-Stage (initialize_settled rejects k) (closes all) h = closes all
occur-Stage stop_called (idle all) h = idle all
occur-Stage stop_called (runs all) h = stops all
occur-Stage stop_called (starts all) h = absurd (true≢false (sym h))
occur-Stage stop_called (stops all) h = stops all
occur-Stage stop_called (closes all) h = closes all
occur-Stage (stop_continued k) (idle all) h = idle all
occur-Stage (stop_continued k) (runs all) h = runs all
occur-Stage (stop_continued k) (starts all) h = starts all
occur-Stage (stop_continued zero) (stops all) h = closes all
occur-Stage (stop_continued (suc k)) (stops all) h = stops all
occur-Stage (stop_continued zero) (closes all) h = idle all
occur-Stage (stop_continued (suc k)) (closes all) h = closes all

run-Stage : (os : List Occurrence) {m : WorkerCluster} → Stage m → AreAlone os m → Stage (run os m)
unfolding run
run-Stage [] stage alone = stage
run-Stage (o ∷ os) stage alone = run-Stage os (occur-Stage o stage alone.0) alone.1

Stage-shut_down :
    {m : WorkerCluster}
    → Stage m
    → m.running ≡ false
    → is_settled m ≡ true
    → m.shut_down ≡ first m.made
Stage-shut_down (idle all) quiet settled = all
Stage-shut_down (runs all) quiet settled = absurd (true≢false quiet)
Stage-shut_down (starts all) quiet settled = absurd (true≢false quiet)
Stage-shut_down (stops all) quiet settled = absurd (true≢false (sym settled))
Stage-shut_down (closes all) quiet settled = all

-- If no call of a cluster comes while another is in progress (a start, up to where it starts its workers;
-- a stop, to its end), then whatever publishers refuse to initialize, and however often it is started and
-- stopped, each publisher that the factory ever made is shut down exactly once, in the order of making,
-- by the time that the cluster does not run and no call is in progress.
pub run-shut_down :
    (worker_id_prefix config_worker_id : Option Text) (host random : Text) (os : List Occurrence)
    → let new = new_cluster worker_id_prefix config_worker_id host random in
      AreAlone os new
      → (run os new).running ≡ false
      → is_settled (run os new) ≡ true
      → (run os new).shut_down ≡ first (run os new).made
unfolding new_cluster first
run-shut_down worker_id_prefix config_worker_id host random os alone quiet settled =
    Stage-shut_down (run-Stage os (idle refl) alone) quiet settled
