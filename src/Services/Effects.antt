-- ===== src/Services/Effects.antt =====
-- What one call of ProcessJob of internal/core/services/processor.go does with the memory adapters,
-- by its outcome.
use mathlib.Core.Option.{get_or}
use job_schedular_service.Base.{pos, ◌≡◌, some, [], ◌∷◌, ◌++◌, String, wrap64, ◌+ℤ◌}
use job_schedular_service.Base.Map.{get, put, nat_key}
use job_schedular_service.Domain.Retry.{Time}
use job_schedular_service.Domain.Job.{
  Error, status_scheduled, status_dead, status_completed, next_retry_at,
}
use job_schedular_service.Runtime.{JobRef}
use job_schedular_service.Ports.{
  JobHistory, jobs_completed, jobs_failed, jobs_retried, jobs_dead_lettered,
}
use job_schedular_service.Services.Stages.{MemoryWorld, delayed_until, buried}

-- The job is saved under its id, and its history has one entry more, about this attempt.
pub record Recorded (p : JobRef) (worker_id : String) (status : String) (error : String)
    (before after : MemoryWorld) : Type 0 where
  pub entry : JobHistory
  pub attempt_number :
      entry.attempt_number
      ≡ wrap64 ((before.runtime.cells p).retry_policy.current_attempts +ℤ pos 1)
  pub by_worker : entry.worker_id ≡ worker_id
  pub with_status : entry.status ≡ status
  pub with_error : entry.error ≡ error
  pub kept :
      after.storage.history
      ≡ put before.storage.history
          (before.runtime.cells p).id
          (get_or (get before.storage.history (before.runtime.cells p).id) [] ++ entry ∷ [])
  pub is_saved : get after.storage.jobs (before.runtime.cells p).id ≡ some p

pub record Requeues (err : Error) (p : JobRef) (worker_id : String) (before after : MemoryWorld)
    : Type 0 where
  pub id : (after.runtime.cells p).id ≡ (before.runtime.cells p).id
  pub job_type : (after.runtime.cells p).job_type ≡ (before.runtime.cells p).job_type
  pub payload : (after.runtime.cells p).payload ≡ (before.runtime.cells p).payload
  pub max_attempts :
      (after.runtime.cells p).retry_policy.max_attempts
      ≡ (before.runtime.cells p).retry_policy.max_attempts
  pub status : (after.runtime.cells p).status ≡ status_scheduled
  pub attempts :
      (after.runtime.cells p).retry_policy.current_attempts
      ≡ wrap64 ((before.runtime.cells p).retry_policy.current_attempts +ℤ pos 1)
  pub last_error : (after.runtime.cells p).last_error ≡ err
  pub queue :
      after.queue
      ≡ delayed_until (after.runtime.cells p).scheduled_at p (before.runtime.cells p) before.queue
  pub due :
      (t : Time) × ((after.runtime.cells p).scheduled_at
        ≡ next_retry_at before.runtime.float_overflow t (after.runtime.cells p))
  pub metrics :
      after.metrics
      ≡ (before.metrics
          ++ jobs_retried (before.runtime.cells p).job_type (before.runtime.cells p).priority ∷ [])
        ++ jobs_failed (before.runtime.cells p).job_type (before.runtime.cells p).priority err ∷ []
  pub recorded : Recorded p worker_id "failed" err before after

-- The job is dead, and only its id is in the dead-letter list: it waits for no retry and in no lane
-- in which it did not wait before.
pub record Buries (err : Error) (p : JobRef) (worker_id : String) (before after : MemoryWorld)
    : Type 0 where
  pub status : (after.runtime.cells p).status ≡ status_dead
  pub attempts :
      (after.runtime.cells p).retry_policy.current_attempts
      ≡ wrap64 ((before.runtime.cells p).retry_policy.current_attempts +ℤ pos 1)
  pub last_error : (after.runtime.cells p).last_error ≡ err
  pub queue : after.queue ≡ buried (before.runtime.cells p) before.queue
  pub metrics :
      after.metrics
      ≡ (before.metrics
          ++ jobs_dead_lettered (before.runtime.cells p).job_type (before.runtime.cells p).priority
            ∷ [])
        ++ jobs_failed (before.runtime.cells p).job_type (before.runtime.cells p).priority err ∷ []
  pub recorded : Recorded p worker_id "failed" err before after

pub record Completes (p : JobRef) (worker_id : String) (before after : MemoryWorld) : Type 0 where
  pub status : (after.runtime.cells p).status ≡ status_completed
  pub retry_policy : (after.runtime.cells p).retry_policy ≡ (before.runtime.cells p).retry_policy
  pub completed : (t : Time) × ((after.runtime.cells p).completed_at ≡ some t)
  pub queue : after.queue ≡ before.queue
  pub recorded : Recorded p worker_id "completed" "" before after
  pub metrics :
      after.metrics
      ≡ before.metrics
        ++ jobs_completed
            (before.runtime.cells p).job_type
            (before.runtime.cells p).priority
            recorded.entry.duration
          ∷ []
