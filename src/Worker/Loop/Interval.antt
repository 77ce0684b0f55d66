-- ===== src/Worker/Loop/Interval.antt =====
-- The sleep of the loop: how `calculatePollInterval` depends on the batch.
use outboxy.Base.{ℕ, ◌*◌, ◌≤◌, ◌≡◌, true, arith}
use outboxy.Worker.Config.{WorkerConfig, IsValid}
use outboxy.Worker.Loop.{calculate_poll_interval}

-- With adaptive polling, a larger batch never makes the worker sleep longer, and it never sleeps
-- longer than the configured maximum (twice it in half milliseconds), if five times the minimum is
-- at most half the maximum.
pub calculate_poll_interval-antitone :
    (c : WorkerConfig) (few many : ℕ)
    → c.adaptive_polling_min_poll_interval_ms * 10 ≤ c.adaptive_polling_max_poll_interval_ms
    → c.adaptive_polling_enabled ≡ true
    → few ≤ many
    → (calculate_poll_interval c many ≤ calculate_poll_interval c few)
      × (calculate_poll_interval c few ≤ c.adaptive_polling_max_poll_interval_ms * 2)
unfolding calculate_poll_interval
calculate_poll_interval-antitone c few many scaled on more = ground arith

-- With a valid configuration and adaptive polling, the worker polls again at once exactly after a
-- full batch.
pub calculate_poll_interval-at_once :
    (c : WorkerConfig) (n : ℕ)
    → IsValid c
    → c.adaptive_polling_enabled ≡ true
    → (calculate_poll_interval c n ≡ 0 → c.batch_size ≤ n)
      × (c.batch_size ≤ n → calculate_poll_interval c n ≡ 0)
unfolding calculate_poll_interval
calculate_poll_interval-at_once c n valid on = ground arith
