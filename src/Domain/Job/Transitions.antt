-- ===== src/Domain/Job/Transitions.antt =====
-- What the methods of internal/core/domain/job.go make of one another.
use job_schedular_service.Base.{
  ℕ, suc, pos, ◌^◌, ◌<◌, ◌≡◌, refl, Bool, true, false, ◌&&◌, arith, ltb, ltb_ℤ, wrap64, ◌+ℤ◌, ◌-ℤ◌,
}
use job_schedular_service.Domain.Retry.{Time, RetryPolicy}
use job_schedular_service.Domain.Job.{Job, Error, can_retry, mark_as_failed}

-- Whether an attempt is left once the one that has just failed is counted.
abbrev pub attempts_remain : RetryPolicy → Bool
attempts_remain rp =
    ltb_ℤ (pos 0) (wrap64 (rp.max_attempts -ℤ wrap64 (rp.current_attempts +ℤ pos 1)))

and_true : (b : Bool) → (b && true) ≡ b
and_true true = refl
and_true false = refl

-- A job that was just marked as failed can be retried exactly if an attempt is left once the failed
-- one is counted, in 64-bit arithmetic, whatever its status was.
pub can_retry-mark_as_failed :
    (err : Error) (t₁ t₂ t₃ : Time) (j : Job)
    → can_retry (mark_as_failed err t₁ t₂ t₃ j) ≡ attempts_remain j.retry_policy
unfolding can_retry mark_as_failed
can_retry-mark_as_failed err t₁ t₂ t₃ j = and_true (attempts_remain j.retry_policy)

-- For counters of an ordinary size, that is the comparison of numbers that it looks like.
pub attempts_remain-lt :
    (rp : RetryPolicy) (m c : ℕ)
    → rp.max_attempts ≡ pos m
    → rp.current_attempts ≡ pos c
    → m < 2 ^ 63
    → c < m
    → attempts_remain rp ≡ ltb (suc c) m
unfolding ◌+ℤ◌ ◌-ℤ◌ wrap64
attempts_remain-lt rp m c em ec hm hc = rw (em, ec) (ground arith)
