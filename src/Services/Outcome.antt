-- ===== src/Services/Outcome.antt =====
-- How an attempt ends in internal/core/services/processor.go, with the memory adapters:
-- handleJobSuccess and the two branches of handleJobFailure.
use job_schedular_service.Base.{suc, ◌≡◌, refl, ◌∙◌, true, false, some, [], ◌∷◌, ◌++◌, String}
use job_schedular_service.Base.Map.{Map, get, put, nat_key}
use job_schedular_service.Domain.Retry.{Time}
use job_schedular_service.Domain.Job.{
  Uuid, Error, status_scheduled, status_dead, status_completed, can_retry, mark_as_failed,
  mark_as_completed, next_retry_at,
}
use job_schedular_service.Runtime.{JobRef, Runtime, now, write, store_self}
use job_schedular_service.Ports.{
  JobHistory, Worker, jobs_retried, jobs_dead_lettered, jobs_failed, jobs_completed, StoragePort,
  QueuePort,
}
use job_schedular_service.Memory.Queue.{MemoryQueue}
use job_schedular_service.Memory.Storage.{MemoryStorage}
use job_schedular_service.Memory.Ports.{memory_storage, memory_queue}
use job_schedular_service.Services.World.{on_runtime}
use job_schedular_service.Services.Processor.{
  handle_job_failure, handle_job_success, retry_job, bury_job, fail_job, complete_job,
}
use job_schedular_service.Services.Stages.{
  MemoryWorld, failed_job, fail_job-cells, fail_job-platform, update_job-saved, delayed_until,
  buried, Retried, retry_job-Retried, Buried, bury_job-Buried, Finished, finish, finish-Finished,
  handle_job_failure-finish,
}

-- handleJobFailure of a job that can be retried.
pub record Rescheduled (err : Error) (p : JobRef) (before after : MemoryWorld) : Type 0 where
  pub at : Time
  pub updated : Time
  pub cell :
      after.runtime.cells p ≡ record (failed_job err before.runtime (before.runtime.cells p)) {
        status = status_scheduled;
        scheduled_at = at;
        updated_at = updated;
      }
  pub when :
      (t : Time) × (at
        ≡ next_retry_at before.runtime.float_overflow t
            (failed_job err before.runtime (before.runtime.cells p)))
  pub queue : after.queue ≡ delayed_until at p (before.runtime.cells p) before.queue
  pub storage :
      after.storage
      ≡ record before.storage { jobs = put before.storage.jobs (before.runtime.cells p).id p }
  pub metrics :
      after.metrics
      ≡ (before.metrics
          ++ jobs_retried (before.runtime.cells p).job_type (before.runtime.cells p).priority ∷ [])
        ++ jobs_failed (before.runtime.cells p).job_type (before.runtime.cells p).priority err ∷ []

-- handleJobFailure of a job that cannot be retried.
pub record DeadLettered (err : Error) (p : JobRef) (before after : MemoryWorld) : Type 0 where
  pub updated : Time
  pub cell :
      after.runtime.cells p ≡ record (failed_job err before.runtime (before.runtime.cells p)) {
        status = status_dead;
        updated_at = updated;
      }
  pub queue : after.queue ≡ buried (before.runtime.cells p) before.queue
  pub storage :
      after.storage
      ≡ record before.storage { jobs = put before.storage.jobs (before.runtime.cells p).id p }
  pub metrics :
      after.metrics
      ≡ (before.metrics
          ++ jobs_dead_lettered (before.runtime.cells p).job_type (before.runtime.cells p).priority
            ∷ [])
        ++ jobs_failed (before.runtime.cells p).job_type (before.runtime.cells p).priority err ∷ []

-- handleJobSuccess
pub record Completed (history : JobHistory) (p : JobRef) (before after : MemoryWorld) : Type 0 where
  pub finished : Time
  pub updated : Time
  pub cell : after.runtime.cells p ≡ record (before.runtime.cells p) {
    status = status_completed;
    updated_at = updated;
    completed_at = some finished;
  }
  pub queue : after.queue ≡ before.queue
  pub storage :
      after.storage
      ≡ record before.storage { jobs = put before.storage.jobs (before.runtime.cells p).id p }
  pub metrics :
      after.metrics
      ≡ before.metrics
        ++ jobs_completed
            (before.runtime.cells p).job_type
            (before.runtime.cells p).priority
            history.duration
          ∷ []

complete_job-cells :
    (p : JobRef) (r : Runtime)
    → (complete_job p r).1.cells p
      ≡ mark_as_completed (r.clock r.reads) (r.clock (suc r.reads)) (r.cells p)
unfolding complete_job
complete_job-cells p r = store_self _ p _

module _ (jobs_order : Map Uuid JobRef → Map Uuid JobRef)
    (workers_order : Map String Worker → Map String Worker)
    (delayed_order : Map Uuid Time → Map Uuid Time) where
  abbrev storage : StoragePort MemoryStorage
  storage = memory_storage jobs_order workers_order

  abbrev queue : QueuePort MemoryQueue
  queue = memory_queue delayed_order

  module _ (p : JobRef) (history : JobHistory) (err : Error) (w : MemoryWorld) (saved : JobRef)
      (is_saved : get w.storage.jobs (w.runtime.cells p).id ≡ some saved) where
    abbrev marked : MemoryWorld
    marked = (on_runtime (fail_job err p) w).1

    failed : marked.runtime.cells p ≡ failed_job err w.runtime (w.runtime.cells p)
    failed = fail_job-cells err p w.runtime

    -- A failed job that can be retried is scheduled again.
    pub handle_job_failure-Rescheduled :
        can_retry (failed_job err w.runtime (w.runtime.cells p)) ≡ true
        → Rescheduled err p w (handle_job_failure storage queue p history err w).1
    unfolding mark_as_failed
    handle_job_failure-Rescheduled c =
        rw (handle_job_failure-finish jobs_order workers_order delayed_order p history err w, c)
          (record {
            at = retried.at;
            updated = done.updated;
            cell = done.cell ∙ cc (retried.cell, failed);
            when =
                (retried.when.0, retried.when.1 ∙ cc (failed, fail_job-platform err p w.runtime));
            queue = done.queue ∙ cc (retried.queue, failed);
            storage = done.storage ∙ cc (retried.storage, retried.cell, failed);
            metrics = done.metrics ∙ cc (retried.metrics, retried.cell, failed);
          })
      where
        after : MemoryWorld
        after = (retry_job storage queue err p marked).1

        retried : Retried jobs_order workers_order delayed_order err p marked after
        retried = retry_job-Retried jobs_order workers_order delayed_order err p marked

        done : Finished err p after (finish p err after).1
        done =
            finish-Finished p err after saved (rw (retried.cell, retried.storage, failed) is_saved)

    -- Any other goes to the dead letters.
    pub handle_job_failure-DeadLettered :
        can_retry (failed_job err w.runtime (w.runtime.cells p)) ≡ false
        → DeadLettered err p w (handle_job_failure storage queue p history err w).1
    unfolding mark_as_failed
    handle_job_failure-DeadLettered c =
        rw (handle_job_failure-finish jobs_order workers_order delayed_order p history err w, c)
          (record {
            updated = done.updated;
            cell = done.cell ∙ cc (dead.cell, failed);
            queue = done.queue ∙ cc (dead.queue, failed);
            storage = done.storage ∙ cc (dead.storage, dead.cell, failed);
            metrics = done.metrics ∙ cc (dead.metrics, dead.cell, failed);
          })
      where
        after : MemoryWorld
        after = (bury_job storage queue err p marked).1

        dead : Buried jobs_order workers_order delayed_order err p marked after
        dead = bury_job-Buried jobs_order workers_order delayed_order err p marked

        done : Finished err p after (finish p err after).1
        done = finish-Finished p err after saved (rw (dead.cell, dead.storage, failed) is_saved)

  -- A job that succeeded is completed, and the queue is as it was.
  pub handle_job_success-Completed :
      (p : JobRef) (history : JobHistory) (w : MemoryWorld) (saved : JobRef)
      → get w.storage.jobs (w.runtime.cells p).id ≡ some saved
      → Completed history p w (handle_job_success storage queue p history w).1
  unfolding handle_job_success mark_as_completed write now
  handle_job_success-Completed p history w saved is_saved =
      rw
        (update_job-saved p (complete_job p w.runtime).1 w.storage saved
          (rw (complete_job-cells p w.runtime) is_saved))
        (record {
          finished = w.runtime.clock (suc w.runtime.reads);
          updated = (now (complete_job p w.runtime).1).0;
          cell = store_self _ p _ ∙ cc (complete_job-cells p w.runtime);
          queue = refl;
          storage = cc (complete_job-cells p w.runtime);
          metrics = rw store_self (cc (complete_job-cells p w.runtime));
        })
