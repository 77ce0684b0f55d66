-- ===== src/Worker/Cluster/Overlaps.antt =====
-- A start that overlaps with a stop loses a publisher.
use outboxy.Base.{ℕ, suc, ◌<◌, ◌≡◌, Bool, false, ◌||◌, List, [], ◌∷◌, ◌==◌}
use outboxy.Worker.Cluster.{
  WorkerCluster, Occurrence, start_called, initialize_settled, stop_called, stop_continued,
}

unfoldable pub is_in : ℕ → List ℕ → Bool
is_in k [] = false
is_in k (n ∷ ns) = n == k || is_in k ns

-- A publisher that was made, is held no more and was not shut down.
abbrev IsLost : ℕ → WorkerCluster → Type 0
IsLost k m = (k < m.made) × (is_in k m.publishers ≡ false) × (is_in k m.shut_down ≡ false)

-- A cluster of one worker is started and stopped, and started again while the stop awaits the shutdown of
-- its publisher.
abbrev pub overlap : ℕ → List Occurrence
overlap left =
    start_called 1
    ∷ initialize_settled false 0
    ∷ stop_called
    ∷ stop_continued 0
    ∷ start_called (suc left)
    ∷ stop_continued 0
    ∷ []
