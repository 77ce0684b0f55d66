-- ===== src/Worker/Batch.antt =====
-- packages/worker/src/batch.ts.
pub mod Partition
use outboxy.Base.{ℕ, List, [], ◌∷◌, ◌++◌, Text, Map, get, ◌or_else◌}
use outboxy.Publisher.{PublishResult}
use outboxy.Worker.Retry.{RetryDecision, decide_retry}

pub record BatchGroupingResult : Type 0 where
  pub succeeded : List Text
  pub retried : List Text
  pub dlq : List Text

-- One turn of the `switch`.
unfoldable pub push_decision : RetryDecision → Text → BatchGroupingResult → BatchGroupingResult
push_decision RetryDecision.succeeded id g = record g { succeeded = g.succeeded ++ id ∷ [] }
push_decision RetryDecision.retry id g = record g { retried = g.retried ++ id ∷ [] }
push_decision RetryDecision.dlq id g = record g { dlq = g.dlq ++ id ∷ [] }

-- The decision on one entry of the map of results.
unfoldable pub decision_of : Text → PublishResult → Map ℕ → ℕ → RetryDecision
decision_of id result retry_count max_retries =
    decide_retry result (get id retry_count or_else 0) max_retries

unfoldable pub group_from :
    BatchGroupingResult → Map PublishResult → Map ℕ → ℕ → BatchGroupingResult
unfolding push_decision decision_of
group_from g [] retry_count max_retries = g
group_from g ((id, result) ∷ results) retry_count max_retries =
    group_from (push_decision (decision_of id result retry_count max_retries) id g) results
      retry_count max_retries

unfoldable pub group_batch_results : Map PublishResult → Map ℕ → ℕ → BatchGroupingResult
unfolding group_from
group_batch_results = group_from (record { succeeded = []; retried = []; dlq = [] })
