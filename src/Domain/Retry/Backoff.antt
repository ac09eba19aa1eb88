-- ===== src/Domain/Retry/Backoff.antt =====
-- When NextRetryAt (internal/core/domain/retry.go) lets a job run again.
use Prim.Native.Nat.{min}
use job_schedular_service.Base.{
  ℕ, suc, ℤ, pos, ◌*◌, ◌^◌, ◌-◌, ◌≤◌, ◌<◌, ◌≡◌, refl, ap, ◌∙◌, some, arith, wrap64, ◌+ℤ◌, ◌*ℤ◌,
  ◌≤ℤ◌, ◌<ℤ◌, +ℤ_parts, wrap64_of_IsInt64, wrap64_negative,
}
use job_schedular_service.Domain.Retry.{
  Time, Duration, RetryPolicy, backoff_exponential, backoff_delay, capped, next_retry_at,
}

capped-le : (limit delay : Duration) → capped limit delay ≤ℤ limit
unfolding capped
capped-le limit delay = ground arith

-- Whatever the strategy, the number of attempts and the conversion of large floats, a job that was
-- tried before is never put off by more than its policy's longest delay.
pub next_retry_at-le_max_delay :
    (overflow : ℤ → Duration) (now last : Time) (rp : RetryPolicy)
    → rp.last_attempt_at ≡ some last
    → next_retry_at overflow now rp ≤ℤ last +ℤ rp.max_delay
next_retry_at-le_max_delay overflow now last rp h =
    unfold next_retry_at in
    rw (h, next_retry_at)
      (omega (
        arith,
        capped-le rp.max_delay (backoff_delay overflow rp),
        +ℤ_parts last (capped rp.max_delay (backoff_delay overflow rp)),
        +ℤ_parts last rp.max_delay,
      ))

-- A policy with exponential backoff after `k` attempts, the last of them at `last`.
abbrev pub exponential : ℕ → ℕ → ℕ → Time → RetryPolicy
exponential k base limit last = record {
  max_attempts = pos (suc k);
  current_attempts = pos k;
  base_delay = pos base;
  max_delay = pos limit;
  backoff_strategy = backoff_exponential;
  last_attempt_at = some last;
}

module _ (overflow : ℤ → Duration) (now last : Time) (k base limit : ℕ) (small : k < 63) where
  exponential_delay :
      backoff_delay overflow (exponential k base limit last) ≡ wrap64 (pos (2 ^ k * base))
  unfolding backoff_delay ◌*ℤ◌
  exponential_delay = ground (arith)

  retry_after :
      (d : Duration)
      → wrap64 (pos (2 ^ k * base)) ≡ d
      → next_retry_at overflow now (exponential k base limit last) ≡ last +ℤ capped (pos limit) d
  retry_after d e =
      unfold next_retry_at in ap (λ t. last +ℤ capped (pos limit) t) (exponential_delay ∙ e)

  -- With exponential backoff after k < 63 attempts, if the base delay times 2 ^ k is below 2 ^ 63,
  -- the job waits for it, or for the longest delay if that is less.
  pub exponential_exact :
      2 ^ k * base ≤ 2 ^ 63 - 1
      → next_retry_at overflow now (exponential k base limit last)
        ≡ last +ℤ pos (min (2 ^ k * base) limit)
  unfolding capped
  exponential_exact fits =
      retry_after _ (wrap64_of_IsInt64 _ (fits, omega arith)) ∙ ap (λ t. last +ℤ t) (ground arith)

  -- With exponential backoff after k < 63 attempts, if the base delay times 2 ^ k is at least 2 ^
  -- 63 and below 2 ^ 64, the retry is due before the attempt that has just failed.
  pub exponential_in_past :
      2 ^ 63 ≤ 2 ^ k * base
      → 2 ^ k * base < 2 ^ 64
      → next_retry_at overflow now (exponential k base limit last) <ℤ last
  exponential_in_past big h =
      rw (retry_after _ refl)
        (omega (arith, below, +ℤ_parts last (capped (pos limit) (wrap64 (pos (2 ^ k * base))))))
    where
      below : capped (pos limit) (wrap64 (pos (2 ^ k * base))) <ℤ pos 0
      below = unfold capped in ground (arith, wrap64_negative (2 ^ k * base) big h)
