-- ===== src/Services/Scheduler.antt =====
-- internal/core/services/schedular.go
use job_schedular_service.Base.{
  pos, String, Bool, true, false, Option, none, some, List, [], ◌∷◌, ltb_ℤ, int_eqb, if◌then◌else◌,
}
use job_schedular_service.Base.Map.{◌==◌, string_key}
use job_schedular_service.Config.{Environment, new_retry_policy}
use job_schedular_service.Domain.Priority.{Priority, priority_medium, to_string}
use job_schedular_service.Domain.Retry.{Time, RetryPolicy}
use job_schedular_service.Domain.Job.{
  Job, JobType, Metadata, Uuid, Error, status_pending, status_scheduled,
}
use job_schedular_service.Runtime.{
  Action, pure, ◌>>=◌, ◌>>◌, JobRef, Runtime, now, new_uuid, allocate, load, wrap_error,
}
use job_schedular_service.Ports.{
  StoragePort, QueuePort, JobFilter, QueueStats, jobs_scheduled, Level, string_field,
}
use job_schedular_service.Services.World.{
  World, on_runtime, on_storage, on_queue, measure, log, log_job_error,
}

pub record ScheduleJobRequest : Type 0 where
  pub job_type : JobType
  pub priority : Priority
  pub payload : String
  pub metadata : Metadata
  pub retry_policy : Option RetryPolicy
  pub schedule_at : Option Time

-- "Set default priority if not specified"
unfoldable pub default_priority : Priority → Priority
default_priority p = if int_eqb p (pos 0) then priority_medium else p

-- "Set retry policy defaults"
unfoldable pub default_policy : Environment → Option RetryPolicy → RetryPolicy
default_policy env none = new_retry_policy env
default_policy env (some policy) = policy

-- "Handle delayed scheduling"
unfoldable pub delay : Option Time → Job → Action Runtime Job
unfolding now
delay none job = pure job
delay (some at) job = do
  instant ← now
  pure (
      if ltb_ℤ instant at then record job { status = status_scheduled; scheduled_at = at } else job)

-- The part of ScheduleJob above "Persist job". The struct is not shared before that.
unfoldable pub new_job : ScheduleJobRequest → Action Runtime Job
unfolding now new_uuid default_priority default_policy delay
new_job req r₀ =
    (do
      id ← new_uuid
      created_at ← now
      updated_at ← now
      scheduled_at ← now
      delay req.schedule_at (record {
        id = id;
        job_type = req.job_type;
        priority = default_priority req.priority;
        payload = req.payload;
        metadata = req.metadata;
        status = status_pending;
        retry_policy = default_policy r₀.environment req.retry_policy;
        created_at = created_at;
        updated_at = updated_at;
        scheduled_at = scheduled_at;
        processed_at = none;
        completed_at = none;
        failed_at = none;
        last_error = "";
        worker_id = "";
      }))
      r₀

module _ {T Q : Type 0} (storage : StoragePort T) (queue : QueuePort Q) where
  -- the two branches of enqueueJob
  abbrev pub dispatch : Bool → Job → JobRef → Action (World T Q) (Option Error)
  dispatch true job p = on_queue (queue.enqueue_delayed p job.scheduled_at)
  dispatch false job p = on_queue (queue.enqueue p)

  unfoldable pub enqueue_job : JobRef → Action (World T Q) (Option Error)
  unfolding load
  enqueue_job p = do job ← on_runtime (load p); dispatch (job.status == status_scheduled) job p

  unfoldable pub report_scheduled : JobRef → Action (World T Q) (Unit {0})
  unfolding load
  report_scheduled p = do
    job ← on_runtime (load p)
    measure (jobs_scheduled job.job_type job.priority)
    λ w.
        log Level.info "Job scheduled successfully"
          (string_field "job_id" (w.runtime.uuid_text job.id)
            ∷ string_field "type" job.job_type
            ∷ string_field "priority" (to_string job.priority)
            ∷ [])
          w

  -- ScheduleJob after the call of enqueueJob, by its error
  unfoldable pub after_enqueue :
      JobRef → Option Error → Action (World T Q) (Option JobRef × Option Error)
  unfolding report_scheduled
  after_enqueue p (some err) = do
    log_job_error "Failed to enqueue job" p err
    pure (none, some (wrap_error "failed to enqueue job: " err))
  after_enqueue p none = do report_scheduled p; pure (some p, none)

  -- ScheduleJob after the call of SaveJob, by its error
  unfoldable pub after_save :
      JobRef → Option Error → Action (World T Q) (Option JobRef × Option Error)
  unfolding enqueue_job after_enqueue
  after_save p (some err) = do
    log_job_error "Failed to save job" p err
    pure (none, some (wrap_error "failed to save job: " err))
  after_save p none = do enqueued ← enqueue_job p; after_enqueue p enqueued

  -- ScheduleJob from "Persist job" on
  unfoldable pub submit : JobRef → Action (World T Q) (Option JobRef × Option Error)
  unfolding after_save
  submit p = do saved ← on_storage (storage.save_job p); after_save p saved

  unfoldable pub schedule_job :
      ScheduleJobRequest → Action (World T Q) (Option JobRef × Option Error)
  unfolding new_job allocate
  schedule_job req = do job ← on_runtime (new_job req); p ← on_runtime (allocate job); submit p

  unfoldable pub get_job : Uuid → Action (World T Q) (Option JobRef × Option Error)
  get_job job_id = on_storage (storage.get_job job_id)

  unfoldable pub list_jobs : JobFilter → Action (World T Q) (List JobRef × Option Error)
  list_jobs filter = on_storage (storage.list_jobs filter)

  unfoldable pub get_queue_stats : Action (World T Q) (QueueStats × Option Error)
  get_queue_stats = on_queue queue.get_queue_stats
