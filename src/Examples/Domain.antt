-- ===== src/Examples/Domain.antt =====
-- Runs of internal/core/domain.
use job_schedular_service.Base.{ℕ, pos, ◌≡◌, refl, arith, ◌≤ℤ◌, ◌<ℤ◌, ◌+ℤ◌}
use job_schedular_service.Domain.Retry.{next_retry_at}
use job_schedular_service.Domain.Retry.Backoff.{
  exponential, next_retry_at-le_max_delay, exponential_exact, exponential_in_past,
}
use job_schedular_service.Domain.Job.{can_retry, mark_as_failed, status_processing}
use job_schedular_service.Domain.Job.Transitions.{attempts_remain, can_retry-mark_as_failed}
use job_schedular_service.Domain.Priority.{priority_high}
use job_schedular_service.Examples.{platform, policy, email_job}

-- Thirty minutes, half a minute, in nanoseconds.
abbrev half_hour : ℕ
half_hour = 1800000000000

abbrev half_minute : ℕ
half_minute = 30000000000

next_retry_at-le_max_delay_example :
    next_retry_at platform.float_overflow (pos 0) (exponential 4 half_minute half_hour (pos 5))
    ≤ℤ pos 5 +ℤ pos half_hour
next_retry_at-le_max_delay_example =
    next_retry_at-le_max_delay platform.float_overflow (pos 0) (pos 5)
      (exponential 4 half_minute half_hour (pos 5)) refl

exponential_exact_example :
    next_retry_at platform.float_overflow (pos 0) (exponential 4 half_minute half_hour (pos 5))
    ≡ pos 5 +ℤ pos 480000000000
exponential_exact_example =
    exponential_exact platform.float_overflow (pos 0) (pos 5) 4 half_minute half_hour (omega arith)
      (omega arith)

exponential_in_past_example :
    next_retry_at platform.float_overflow (pos 0) (exponential 29 half_minute half_hour (pos 5))
    <ℤ pos 5
exponential_in_past_example =
    exponential_in_past platform.float_overflow (pos 0) (pos 5) 29 half_minute half_hour
      (omega arith) (omega arith) (omega arith)

can_retry-mark_as_failed_example :
    can_retry (
      mark_as_failed "boom"
        (pos 1)
        (pos 2)
        (pos 3)
        (email_job 100 priority_high status_processing (policy (pos 3) (pos 1))))
    ≡ attempts_remain (policy (pos 3) (pos 1))
can_retry-mark_as_failed_example =
    can_retry-mark_as_failed "boom" (pos 1) (pos 2) (pos 3)
      (email_job 100 priority_high status_processing (policy (pos 3) (pos 1)))
