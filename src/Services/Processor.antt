-- ===== src/Services/Processor.antt =====
-- internal/core/services/processor.go. A handler is an action on the shared runtime that may fail;
-- it is taken to return, within its deadline or after. The context is not modelled.
use job_schedular_service.Base.{
  suc, pos, String, Bool, true, false, Option, none, some, List, [], ◌∷◌, wrap64, ◌+ℤ◌, str_append,
}
use job_schedular_service.Base.Map.{Map, get, put, string_key}
use job_schedular_service.Domain.Priority.{Priority}
use job_schedular_service.Domain.Retry.{Time}
use job_schedular_service.Domain.Job.{
  JobType, Error, status_scheduled, can_retry, mark_as_processing, mark_as_completed,
  mark_as_failed, mark_as_dead, next_retry_at,
}
use job_schedular_service.Runtime.{
  Action, pure, ◌>>=◌, ◌>>◌, JobRef, Runtime, now, new_uuid, load, update, since, wrap_error,
}
use job_schedular_service.Ports.{
  StoragePort, QueuePort, JobHistory, Level, string_field, int_field, duration_field,
  jobs_completed, jobs_failed, jobs_retried, jobs_dead_lettered,
}
use job_schedular_service.Services.World.{
  World, on_runtime, on_storage, on_queue, measure, log, log_if_failed, log_job_error,
}

-- JobHandler
pub record JobHandler : Type 0 where
  pub handle : JobRef → Action Runtime (Option Error)
  pub get_type : JobType

abbrev pub Handlers : Type 0
Handlers = Map JobType JobHandler

-- RegisterHandler
unfoldable pub register_handler : JobHandler → Handlers → Handlers
register_handler handler handlers = put handlers handler.get_type handler

-- executeJob
unfoldable pub execute_job : Handlers → JobRef → Action Runtime (Option Error)
execute_job handlers p r = elim (get handlers (r.cells p).job_type) [
  | none ↦ (some (str_append "no handler registered for job type: " (r.cells p).job_type), r)
  | some handler ↦ handler.handle p r
]

-- job.NextRetryAt(), which reads the clock only if the job was never tried
unfoldable pub next_retry : JobRef → Action Runtime Time
next_retry p r = (
  next_retry_at r.float_overflow (r.clock r.reads) (r.cells p),
  record r {
    reads = elim (r.cells p).retry_policy.last_attempt_at [ none ↦ suc r.reads | some _ ↦ r.reads ];
  },
)

-- job.MarkAsProcessing, job.MarkAsCompleted, job.MarkAsFailed and job.MarkAsDead on the shared job
unfoldable pub start_job : String → JobRef → Action Runtime (Unit {0})
unfolding now update
start_job worker_id p = do t₁ ← now; t₂ ← now; update p (mark_as_processing worker_id t₁ t₂)

unfoldable pub complete_job : JobRef → Action Runtime (Unit {0})
unfolding now update
complete_job p = do t₁ ← now; t₂ ← now; update p (mark_as_completed t₁ t₂)

unfoldable pub fail_job : Error → JobRef → Action Runtime (Unit {0})
unfolding now update
fail_job err p = do t₁ ← now; t₂ ← now; t₃ ← now; update p (mark_as_failed err t₁ t₂ t₃)

unfoldable pub kill_job : JobRef → Action Runtime (Unit {0})
unfolding now update
kill_job p = do t ← now; update p (mark_as_dead t)

module _ {T Q : Type 0} (storage : StoragePort T) (queue : QueuePort Q) where
  -- handleJobSuccess; it returns the history that it has changed
  unfoldable pub handle_job_success : JobRef → JobHistory → Action (World T Q) JobHistory
  unfolding load
  handle_job_success p history = do
    on_runtime (complete_job p)
    updated ← on_storage (storage.update_job p)
    log_if_failed "Failed to update completed job" p updated
    job ← on_runtime (load p)
    measure (jobs_completed job.job_type job.priority history.duration)
    λ w.
        log Level.info "Job completed successfully"
          (string_field "job_id" (w.runtime.uuid_text job.id)
            ∷ duration_field "duration" history.duration
            ∷ [])
          w
    pure (record history { status = "completed" })

  -- the branch of handleJobFailure for a job that can be retried
  unfoldable pub retry_job : Error → JobRef → Action (World T Q) (Unit {0})
  unfolding load update
  retry_job err p = do
    at ← on_runtime (next_retry p)
    on_runtime (update p (λ job. record job { status = status_scheduled; scheduled_at = at }))
    enqueued ← on_queue (queue.enqueue_delayed p at)
    log_if_failed "Failed to enqueue job for retry" p enqueued
    job ← on_runtime (load p)
    measure (jobs_retried job.job_type job.priority)
    λ w.
        log Level.warn "Job failed, scheduled for retry"
          (string_field "job_id" (w.runtime.uuid_text job.id)
            ∷ int_field "attempt" job.retry_policy.current_attempts
            ∷ int_field "max_attempts" job.retry_policy.max_attempts
            ∷ string_field "error" err
            ∷ [])
          w

  -- its other branch
  unfoldable pub bury_job : Error → JobRef → Action (World T Q) (Unit {0})
  unfolding load
  bury_job err p = do
    on_runtime (kill_job p)
    moved ← on_queue (queue.move_to_dead_letter p)
    log_if_failed "Failed to move job to dead letter queue" p moved
    job ← on_runtime (load p)
    measure (jobs_dead_lettered job.job_type job.priority)
    log_job_error "Job moved to dead letter queue" p err

  abbrev pub dispose : Bool → Error → JobRef → Action (World T Q) (Unit {0})
  dispose true = retry_job
  dispose false = bury_job

  -- handleJobFailure; it returns the history that it has changed
  unfoldable pub handle_job_failure : JobRef → JobHistory → Error → Action (World T Q) JobHistory
  unfolding load
  handle_job_failure p history err = do
    on_runtime (fail_job err p)
    failed ← on_runtime (load p)
    dispose (can_retry failed) err p
    job ← on_runtime (load p)
    measure (jobs_failed job.job_type job.priority err)
    updated ← on_storage (storage.update_job p)
    log_if_failed "Failed to update failed job" p updated
    pure (record history { status = "failed"; error = err })

  abbrev pub conclude : Option Error → JobRef → JobHistory → Action (World T Q) JobHistory
  conclude none p history = handle_job_success p history
  conclude (some err) p history = handle_job_failure p history err

  -- ProcessJob from `history := ...` on
  unfoldable pub attempt_job : Handlers → JobRef → String → Action (World T Q) (Option Error)
  unfolding now new_uuid load
  attempt_job handlers p worker_id = do
    history_id ← on_runtime new_uuid
    job ← on_runtime (load p)
    started_at ← on_runtime now
    start_time ← on_runtime now
    err ← on_runtime (execute_job handlers p)
    duration ← on_runtime (since start_time)
    completed_at ← on_runtime now
    history ← (λ w.
        conclude err p
          (record {
            id = w.runtime.uuid_text history_id;
            job_id = job.id;
            worker_id = worker_id;
            attempt_number = wrap64 (job.retry_policy.current_attempts +ℤ pos 1);
            started_at = started_at;
            completed_at = some completed_at;
            status = "processing";
            error = "";
            duration = duration;
          })
          w)
    saved ← on_storage (storage.save_job_history history)
    log_if_failed "Failed to save job history" p saved
    pure err

  unfoldable pub process_job : Handlers → JobRef → String → Action (World T Q) (Option Error)
  process_job handlers p worker_id = do
    on_runtime (start_job worker_id p)
    updated ← on_storage (storage.update_job p)
    elim updated [
      | some err ↦ pure (some (wrap_error "failed to update job status: " err))
      | none ↦ attempt_job handlers p worker_id
    ]

  -- ProcessNextJob after the call of Dequeue, by its job and its error
  unfoldable pub after_dequeue :
      Handlers → String → Option JobRef → Option Error → Action (World T Q) (Option Error)
  after_dequeue handlers worker_id job (some err) =
      pure (some (wrap_error "failed to dequeue job: " err))
  after_dequeue handlers worker_id none none = pure (some "no jobs available")
  after_dequeue handlers worker_id (some p) none = process_job handlers p worker_id

  unfoldable pub process_next_job :
      Handlers → String → List Priority → Action (World T Q) (Option Error)
  unfolding after_dequeue
  process_next_job handlers worker_id priorities = do
    (job, err) ← on_queue (queue.dequeue priorities)
    after_dequeue handlers worker_id job err
