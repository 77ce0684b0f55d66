-- ===== src/Worker/Retry.antt =====
-- packages/worker/src/retry.ts.
use outboxy.Base.{ℕ, not, ◌||◌, leb, if◌then◌else◌}
use outboxy.Publisher.{PublishResult}

pub data RetryDecision : Type 0 where
  succeeded retry dlq : RetryDecision

unfoldable pub decide_retry : PublishResult → ℕ → ℕ → RetryDecision
decide_retry result retry_count max_retries =
    if result.success
    then succeeded
    else if not result.retryable || leb max_retries retry_count
    then dlq
    else retry
