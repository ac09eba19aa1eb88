-- ===== src/Services/Stages.antt =====
-- The steps of internal/core/services/processor.go over the memory adapters, one lemma for each: what
-- it does to the job, the queue, the storage and the metrics.
use job_schedular_service.Base.{suc, ◌≡◌, refl, none, some, [], ◌∷◌, ◌++◌, String}
use job_schedular_service.Base.Map.{Map, get, put, nat_key}
use job_schedular_service.Domain.Retry.{Time}
use job_schedular_service.Domain.Job.{
  Job, Uuid, Error, status_scheduled, status_dead, can_retry, mark_as_failed, mark_as_dead,
  next_retry_at,
}
use job_schedular_service.Runtime.{
  Action, ◌>>=◌, ◌>>◌, JobRef, Runtime, now, write, load, store_self,
}
use job_schedular_service.Ports.{
  JobHistory, Worker, jobs_retried, jobs_dead_lettered, jobs_failed, StoragePort, QueuePort,
}
use job_schedular_service.Memory.Queue.{MemoryQueue, enqueue_delayed, move_to_dead_letter}
use job_schedular_service.Memory.Storage.{MemoryStorage, update_job}
use job_schedular_service.Memory.Ports.{memory_storage, memory_queue}
use job_schedular_service.Services.World.{World, on_runtime, on_storage, measure, log_if_failed}
use job_schedular_service.Services.Processor.{
  handle_job_failure, retry_job, bury_job, fail_job, next_retry, kill_job, dispose,
}

abbrev pub MemoryWorld : Type 0
MemoryWorld = World MemoryStorage MemoryQueue

-- What a failed attempt makes of the job, at the three times at which the clock is read.
abbrev pub failed_job : Error → Runtime → Job → Job
failed_job err r =
    mark_as_failed err (r.clock r.reads) (r.clock (suc r.reads)) (r.clock (suc (suc r.reads)))

pub fail_job-cells :
    (err : Error) (p : JobRef) (r : Runtime)
    → (fail_job err p r).1.cells p ≡ failed_job err r (r.cells p)
unfolding fail_job
fail_job-cells err p r = store_self _ p _

pub fail_job-platform :
    (err : Error) (p : JobRef) (r : Runtime) → (fail_job err p r).1.platform ≡ r.platform
unfolding fail_job
fail_job-platform err p r = refl

-- UpdateJob of a job that is in the storage.
pub update_job-saved :
    (p : JobRef) (r : Runtime) (m : MemoryStorage) (saved : JobRef)
    → get m.jobs (r.cells p).id ≡ some saved
    → update_job p (r, m) ≡ (
      none,
      (
        write p (record (r.cells p) { updated_at = (now r).0 }) (now r).1,
        record m { jobs = put m.jobs (r.cells p).id p },
      ),
    )
unfolding update_job
update_job-saved p r m saved h = rw (h, update_job)

-- The end of handleJobFailure, after the job went its way.
pub finish : JobRef → Error → Action MemoryWorld (Unit {0})
unfolding load
finish p err = do
  job ← on_runtime (load p)
  measure (jobs_failed job.job_type job.priority err)
  updated ← on_storage (update_job p)
  log_if_failed "Failed to update failed job" p updated

pub record Finished (err : Error) (p : JobRef) (before after : MemoryWorld) : Type 0 where
  pub updated : Time
  pub cell : after.runtime.cells p ≡ record (before.runtime.cells p) { updated_at = updated }
  pub queue : after.queue ≡ before.queue
  pub storage :
      after.storage
      ≡ record before.storage { jobs = put before.storage.jobs (before.runtime.cells p).id p }
  pub metrics :
      after.metrics
      ≡ before.metrics
        ++ jobs_failed (before.runtime.cells p).job_type (before.runtime.cells p).priority err ∷ []

pub finish-Finished :
    (p : JobRef) (err : Error) (w : MemoryWorld) (saved : JobRef)
    → get w.storage.jobs (w.runtime.cells p).id ≡ some saved
    → Finished err p w (finish p err w).1
unfolding finish now write
finish-Finished p err w saved h = rw (update_job-saved p w.runtime w.storage saved h) (record {
  updated = (now w.runtime).0;
  cell = store_self _ p _;
  queue = refl;
  storage = refl;
  metrics = refl;
})

-- The queue after a delayed enqueueing of `job`, and after a burial.
abbrev pub delayed_until : Time → JobRef → Job → MemoryQueue → MemoryQueue
delayed_until at p job q = record q {
  job_storage = put q.job_storage job.id p;
  delayed_jobs = put q.delayed_jobs job.id at;
}

abbrev pub buried : Job → MemoryQueue → MemoryQueue
buried job q = record q { dead_letter = q.dead_letter ++ job.id ∷ [] }

module _ (jobs_order : Map Uuid JobRef → Map Uuid JobRef)
    (workers_order : Map String Worker → Map String Worker)
    (delayed_order : Map Uuid Time → Map Uuid Time) where
  abbrev pub storage_port : StoragePort MemoryStorage
  storage_port = memory_storage jobs_order workers_order

  abbrev pub queue_port : QueuePort MemoryQueue
  queue_port = memory_queue delayed_order

  pub record Retried (err : Error) (p : JobRef) (before after : MemoryWorld) : Type 0 where
    pub at : Time
    pub cell :
        after.runtime.cells p
        ≡ record (before.runtime.cells p) { status = status_scheduled; scheduled_at = at }
    pub when :
        (t : Time) × (at ≡ next_retry_at before.runtime.float_overflow t (before.runtime.cells p))
    pub queue : after.queue ≡ delayed_until at p (before.runtime.cells p) before.queue
    pub storage : after.storage ≡ before.storage
    pub metrics :
        after.metrics
        ≡ before.metrics
          ++ jobs_retried (before.runtime.cells p).job_type (before.runtime.cells p).priority ∷ []

  pub retry_job-Retried :
      (err : Error) (p : JobRef) (w : MemoryWorld)
      → Retried err p w (retry_job storage_port queue_port err p w).1
  unfolding retry_job enqueue_delayed next_retry
  retry_job-Retried err p w = record {
    at =
        next_retry_at w.runtime.float_overflow (w.runtime.clock w.runtime.reads)
          (w.runtime.cells p);
    cell = store_self _ p _;
    when = (w.runtime.clock w.runtime.reads, refl);
    queue = rw store_self;
    storage = refl;
    metrics = rw store_self;
  }

  pub record Buried (err : Error) (p : JobRef) (before after : MemoryWorld) : Type 0 where
    pub at : Time
    pub cell :
        after.runtime.cells p
        ≡ record (before.runtime.cells p) { status = status_dead; updated_at = at }
    pub queue : after.queue ≡ buried (before.runtime.cells p) before.queue
    pub storage : after.storage ≡ before.storage
    pub metrics :
        after.metrics
        ≡ before.metrics
          ++ jobs_dead_lettered (before.runtime.cells p).job_type (before.runtime.cells p).priority
            ∷ []

  pub bury_job-Buried :
      (err : Error) (p : JobRef) (w : MemoryWorld)
      → Buried err p w (bury_job storage_port queue_port err p w).1
  unfolding bury_job kill_job move_to_dead_letter mark_as_dead
  bury_job-Buried err p w = record {
    at = w.runtime.clock w.runtime.reads;
    cell = store_self _ p _;
    queue = rw store_self;
    storage = refl;
    metrics = rw store_self;
  }

  pub handle_job_failure-finish :
      (p : JobRef) (history : JobHistory) (err : Error) (w : MemoryWorld)
      → (handle_job_failure storage_port queue_port p history err w).1
        ≡ (finish p err
            (dispose storage_port queue_port
              (can_retry (failed_job err w.runtime (w.runtime.cells p)))
              err
              p
              (on_runtime (fail_job err p) w).1).1).1
  unfolding handle_job_failure finish
  handle_job_failure-finish p history err w = rw (← fail_job-cells err p w.runtime)
