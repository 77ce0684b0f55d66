-- ===== src/Worker/Config.antt =====
-- packages/worker/src/config.ts: the fields that the worker's core reads, and what the schema
-- demands of them. The multiplier is the decimal `backoff_multiplier_num / backoff_multiplier_den`.
use outboxy.Base.{ℕ, ◌≤◌, ◌<◌, Bool}

pub record WorkerConfig : Type 0 where
  pub poll_interval_ms : ℕ
  pub batch_size : ℕ
  pub max_retries : ℕ
  pub backoff_base_ms : ℕ
  pub backoff_multiplier_num : ℕ
  pub backoff_multiplier_den : ℕ
  pub shutdown_timeout_ms : ℕ
  pub adaptive_polling_enabled : Bool
  pub adaptive_polling_min_poll_interval_ms : ℕ
  pub adaptive_polling_max_poll_interval_ms : ℕ
  pub adaptive_polling_busy_threshold : ℕ
  pub adaptive_polling_moderate_threshold : ℕ

-- `workerConfigSchema` with its two refinements.
pub record IsValid (c : WorkerConfig) : Type 0 where
  pub poll_interval_pos : 0 < c.poll_interval_ms
  pub batch_size_pos : 0 < c.batch_size
  pub backoff_base_pos : 0 < c.backoff_base_ms
  pub multiplier_pos : 0 < c.backoff_multiplier_num
  pub denominator_pos : 0 < c.backoff_multiplier_den
  pub shutdown_timeout_pos : 0 < c.shutdown_timeout_ms
  pub min_poll_interval_pos : 0 < c.adaptive_polling_min_poll_interval_ms
  pub max_poll_interval_pos : 0 < c.adaptive_polling_max_poll_interval_ms
  pub min_lt_max : c.adaptive_polling_min_poll_interval_ms < c.adaptive_polling_max_poll_interval_ms
  pub moderate_le_busy : c.adaptive_polling_moderate_threshold ≤ c.adaptive_polling_busy_threshold
