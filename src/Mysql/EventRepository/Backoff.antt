-- ===== src/Mysql/EventRepository/Backoff.antt =====
-- The delay before a retry on MySQL, against PostgreSQL.
use outboxy.Base.{
  ℕ, suc, ◌+◌, ◌-◌, ◌*◌, ◌/◌, ◌^◌, ◌≤◌, ◌<◌, ◌≡◌, refl, ap, sym, ◌∙◌, some, Text, Map, arith,
}
use outboxy.Schema.{OutboxEventRow}
use outboxy.Postgres.EventRepository
use outboxy.Postgres.EventRepository.{BackoffConfig, backoff_delay}
use outboxy.Postgres.EventRepository.Backoff.{whole, one_pow, backoff_delay-whole, pow-suc}
use outboxy.Mysql.EventRepository.{backoff_seconds, set_retry}

backoff_seconds-whole :
    (base_ms multiplier n : ℕ)
    → backoff_seconds (whole base_ms multiplier) n ≡ (base_ms * multiplier ^ n + 1000 - 1) / 1000
unfolding backoff_seconds
backoff_seconds-whole base_ms multiplier n =
    rw (one_pow n)
      (ap (λ d. (base_ms * multiplier ^ n + d - 1) / d) {x = 1000 * 1} {y = 1000} (omega arith))

ceil_bounds :
    (x : ℕ)
    → (x * 1000 ≤ (x + 1000 - 1) / 1000 * 1000000)
      × ((x + 1000 - 1) / 1000 * 1000000 < x * 1000 + 1000000)
ceil_bounds x = omega arith

exact :
    (base_ms multiplier n : ℕ)
    → multiplier * backoff_delay (whole base_ms multiplier) n
      ≡ base_ms * multiplier ^ (n + 1) * 1000
exact base_ms multiplier n =
    ap (λ d. multiplier * d) (backoff_delay-whole base_ms multiplier n)
    ∙ sym (pow-suc multiplier base_ms n)
    ∙ ap (λ k. base_ms * 1000 * multiplier ^ k) {x = suc n} {y = n + 1} (omega arith)
    ∙ grind arith

-- On MySQL the wait before a retry is longer than on PostgreSQL by the factor of the multiplier, up to
-- the second that it is rounded up to: the delay is computed from the count of retries after its
-- increase. The multiplier is a whole number.
pub set_retry-later :
    (now base_ms multiplier : ℕ) (errors : Map Text) (r : OutboxEventRow)
    → let config = whole base_ms multiplier in
      (wait : ℕ) × (postgres_wait : ℕ) × ((set_retry now config errors r).next_retry_at
        ≡ some (now + wait))
      × ((EventRepository.set_retry now config errors r).next_retry_at ≡ some (now + postgres_wait))
      × (multiplier * postgres_wait ≤ wait)
      × (wait < multiplier * postgres_wait + 1000000)
unfolding set_retry EventRepository.set_retry
set_retry-later now base_ms multiplier errors r =
    let power : ℕ = multiplier ^ (r.retry_count + 1) in
    let bounds = ceil_bounds (base_ms * power) in
    (
      backoff_seconds (whole base_ms multiplier) (r.retry_count + 1) * 1000000,
      backoff_delay (whole base_ms multiplier) r.retry_count,
      refl,
      refl,
      rw
          (
            backoff_seconds-whole base_ms multiplier (r.retry_count + 1),
            exact base_ms multiplier r.retry_count,
          )
          bounds.0,
      rw
          (
            backoff_seconds-whole base_ms multiplier (r.retry_count + 1),
            exact base_ms multiplier r.retry_count,
          )
          bounds.1,
    )
