-- ===== src/Domain/Retry.antt =====
-- internal/core/domain/retry.go. `int` and `time.Duration` are 64-bit integers whose arithmetic
-- wraps; a `time.Time` is a number of nanoseconds.
pub mod Backoff
use job_schedular_service.Base.{
  ℤ, pos, negsuc, ◌^◌, String, Option, none, some, ltb, if◌then◌else◌, wrap64, ◌+ℤ◌, ◌-ℤ◌, ◌*ℤ◌,
  ltb_ℤ,
}
use job_schedular_service.Base.Map.{◌==◌, string_key}

abbrev pub Time : Type 0
Time = ℤ

abbrev pub Duration : Type 0
Duration = ℤ

abbrev pub BackoffType : Type 0
BackoffType = String

abbrev pub backoff_fixed : BackoffType
backoff_fixed = "fixed"

abbrev pub backoff_linear : BackoffType
backoff_linear = "linear"

abbrev pub backoff_exponential : BackoffType
backoff_exponential = "exponential"

abbrev pub default_backoff : BackoffType
default_backoff = "exponential"

pub record RetryPolicy : Type 0 where
  pub max_attempts : ℤ
  pub current_attempts : ℤ
  pub base_delay : Duration
  pub max_delay : Duration
  pub backoff_strategy : BackoffType
  pub last_attempt_at : Option Time

-- RetryPolicy.AttemptsLeft
unfoldable pub attempts_left : RetryPolicy → ℤ
attempts_left rp = wrap64 (rp.max_attempts -ℤ rp.current_attempts)

-- RetryPolicy.IncrementAttempts, at the time that `time.Now` returns
unfoldable pub increment_attempts : Time → RetryPolicy → RetryPolicy
increment_attempts now rp = record rp {
  current_attempts = wrap64 (rp.current_attempts +ℤ pos 1);
  last_attempt_at = some now;
}

-- time.Duration(math.Pow(2, float64(n))). Go leaves the conversion of a float64 that is too large
-- for an int64 to the implementation: `overflow n` stands for its result.
unfoldable pub power_of_two : (ℤ → Duration) → ℤ → Duration
power_of_two overflow (pos k) = if ltb k 63 then pos (2 ^ k) else overflow (pos k)
power_of_two overflow (negsuc k) = pos 0

-- the `switch` of NextRetryAt
unfoldable pub backoff_delay : (ℤ → Duration) → RetryPolicy → Duration
unfolding power_of_two
backoff_delay overflow rp =
    if rp.backoff_strategy == backoff_fixed
    then rp.base_delay
    else if rp.backoff_strategy == backoff_linear
    then wrap64 (rp.current_attempts *ℤ rp.base_delay)
    else if rp.backoff_strategy == backoff_exponential
    then wrap64 (power_of_two overflow rp.current_attempts *ℤ rp.base_delay)
    else rp.base_delay

-- the cap of NextRetryAt
unfoldable pub capped : Duration → Duration → Duration
capped limit delay = if ltb_ℤ limit delay then limit else delay

-- RetryPolicy.NextRetryAt; `now` is read only where there was no attempt yet
unfoldable pub next_retry_at : (ℤ → Duration) → Time → RetryPolicy → Time
unfolding backoff_delay capped
next_retry_at overflow now rp = elim rp.last_attempt_at [
  | none ↦ now
  | some last ↦ last +ℤ capped rp.max_delay (backoff_delay overflow rp)
]
