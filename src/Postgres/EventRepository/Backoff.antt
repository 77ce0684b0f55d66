-- ===== src/Postgres/EventRepository/Backoff.antt =====
-- The delay before a retry.
use outboxy.Base.{ℕ, ◌+◌, ◌*◌, ◌/◌, ◌^◌, ◌≡◌, refl, zero, suc, arith}
use outboxy.Postgres.EventRepository.{BackoffConfig, backoff_delay}
use native.Mathlib.Numerals.{unary_clauses}

pub one_pow : (k : ℕ) → 1 ^ k ≡ 1
one_pow zero = refl
one_pow (suc k) = simp unary_clauses (omega (arith, one_pow k))

half : (x : ℕ) → (2 * x + 1) / (2 * 1) ≡ x
half x = omega arith

abbrev pub whole : ℕ → ℕ → BackoffConfig
whole base_ms multiplier = record {
  backoff_base_ms = base_ms;
  multiplier_num = multiplier;
  multiplier_den = 1;
}

-- With a whole multiplier the delay before a retry is exact: the base delay in milliseconds times the
-- multiplier to the power of the row's retries so far, in microseconds.
pub backoff_delay-whole :
    (base_ms multiplier retry_count : ℕ)
    → backoff_delay (whole base_ms multiplier) retry_count
      ≡ base_ms * 1000 * multiplier ^ retry_count
unfolding backoff_delay
backoff_delay-whole base_ms multiplier retry_count =
    rw (one_pow retry_count) (half (base_ms * 1000 * multiplier ^ retry_count))

pow-zero : (m b : ℕ) → b * 1000 * m ^ 0 ≡ b * 1000
pow-zero m b = simp unary_clauses (omega arith)

pub pow-suc : (m b k : ℕ) → b * 1000 * m ^ suc k ≡ m * (b * 1000 * m ^ k)
pow-suc m b k = simp unary_clauses (grind arith)

-- With a whole multiplier the first retry waits the base delay, and each further one the multiplier
-- times as long as the one before it.
pub backoff_delay-grows :
    (base_ms multiplier retry_count : ℕ)
    → (backoff_delay (whole base_ms multiplier) 0 ≡ base_ms * 1000)
      × (backoff_delay (whole base_ms multiplier) (suc retry_count)
          ≡ multiplier * backoff_delay (whole base_ms multiplier) retry_count)
backoff_delay-grows base_ms multiplier retry_count = (
  rw (backoff_delay-whole base_ms multiplier 0) (pow-zero multiplier base_ms),
  rw
      (
        backoff_delay-whole base_ms multiplier retry_count,
        backoff_delay-whole base_ms multiplier (suc retry_count),
      )
      (pow-suc multiplier base_ms retry_count),
)
