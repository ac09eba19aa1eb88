-- ===== src/Services/Lifecycle.antt =====
-- One call of ProcessJob of internal/core/services/processor.go, from end to end, with the memory
-- adapters.
use job_schedular_service.Base.{◌≡◌, sym, ap, ◌∙◌, subst, true, false, Option, none, some, String}
use job_schedular_service.Base.Map.{Map, get, nat_key}
use job_schedular_service.Domain.Retry.{Time}
use job_schedular_service.Domain.Job.{Job, Uuid, Error, can_retry}
use job_schedular_service.Domain.Job.Transitions.{attempts_remain}
use job_schedular_service.Runtime.{JobRef}
use job_schedular_service.Ports.{Worker, StoragePort, QueuePort}
use job_schedular_service.Memory.Queue.{MemoryQueue}
use job_schedular_service.Memory.Storage.{MemoryStorage}
use job_schedular_service.Memory.Ports.{memory_storage, memory_queue}
use job_schedular_service.Services.Processor.{
  Handlers, process_job, handle_job_failure, handle_job_success,
}
use job_schedular_service.Services.Stages.{MemoryWorld, failed_job}
use job_schedular_service.Services.Outcome.{
  Rescheduled, DeadLettered, handle_job_failure-Rescheduled, handle_job_failure-DeadLettered,
  handle_job_success-Completed,
}
use job_schedular_service.Services.Attempt.{Runs, process_job-Started, attempt_job-Attempted}
use job_schedular_service.Services.Effects.{Requeues, Buries, Completes}
use job_schedular_service.Services.Course.{
  can_retry_failed, get-put_same, Ran, requeues, buries, completes,
}

module _ (jobs_order : Map Uuid JobRef → Map Uuid JobRef)
    (workers_order : Map String Worker → Map String Worker)
    (delayed_order : Map Uuid Time → Map Uuid Time) where
  abbrev storage_port : StoragePort MemoryStorage
  storage_port = memory_storage jobs_order workers_order

  abbrev queue_port : QueuePort MemoryQueue
  queue_port = memory_queue delayed_order

  module _ (handlers : Handlers) (p : JobRef) (worker_id : String) (w : MemoryWorld)
      (saved : JobRef) (is_saved : get w.storage.jobs (w.runtime.cells p).id ≡ some saved) where
    process_job-Ran :
        (outcome : Option Error)
        → Runs handlers p (w.runtime.cells p).job_type (w.runtime.cells p).payload outcome
        → Ran jobs_order workers_order delayed_order p worker_id outcome w
            (process_job storage_port queue_port handlers p worker_id w)
    process_job-Ran outcome runs =
        let (started, s, same) =
          process_job-Started jobs_order workers_order delayed_order handlers p worker_id w saved
            is_saved in
        let runs' : Runs handlers p (started.runtime.cells p).job_type
            (started.runtime.cells p).payload outcome =
          subst (λ (j : Job). Runs handlers p j.job_type j.payload outcome) (sym s.cell) runs in
        let (result, a) =
          attempt_job-Attempted jobs_order workers_order delayed_order handlers p worker_id outcome
            started runs' in
        rw same (record {
          ready = record started { runtime = a.ran };
          entry = a.entry;
          updated = s.updated;
          processed = s.processed;
          cell = a.same_cell ∙ s.cell;
          queue = s.queue;
          storage = s.storage;
          metrics = s.metrics;
          is_saved =
              rw (s.storage, a.same_cell, s.cell)
                (get-put_same w.storage.jobs (w.runtime.cells p).id p);
          same_platform = a.same_platform ∙ s.same_platform;
          entry_job = cc (a.entry_job, s.cell);
          entry_worker = a.entry_worker;
          entry_error = a.entry_error;
          entry_number = cc (a.entry_number, s.cell);
          result = result;
          concluded = a.concluded;
        })

    -- What the failure marks of the job decides as the job's counters did before the attempt.
    retried_or_not :
        (err : Error)
        (ran : Ran jobs_order workers_order delayed_order p worker_id
          (some err)
          w
          (process_job storage_port queue_port handlers p worker_id w))
        → can_retry (failed_job err ran.ready.runtime (ran.ready.runtime.cells p))
          ≡ attempts_remain (w.runtime.cells p).retry_policy
    retried_or_not err ran =
        can_retry_failed err ran.ready.runtime (ran.ready.runtime.cells p)
        ∙ ap (λ (j : Job). attempts_remain j.retry_policy) ran.cell

    abbrev failure :
        (err : Error)
        → Ran jobs_order workers_order delayed_order p worker_id
            (some err)
            w
            (process_job storage_port queue_port handlers p worker_id w)
        → MemoryWorld
    failure err ran = (handle_job_failure storage_port queue_port p ran.entry err ran.ready).1

    -- With the memory adapters, ProcessJob of a saved job whose handler fails, and leaves the job
    -- as it found it, while an attempt is left once this one is counted, returns the handler's
    -- error and leaves the job scheduled for the time that NextRetryAt gives and delayed in the
    -- queue until then, with one attempt more, the metrics of a retry and a failure, one failed
    -- entry more in its history, and the job saved.
    pub process_job-Requeues :
        (err : Error)
        → Runs handlers p (w.runtime.cells p).job_type (w.runtime.cells p).payload (some err)
        → attempts_remain (w.runtime.cells p).retry_policy ≡ true
        → let (result, after) = process_job storage_port queue_port handlers p worker_id w in
          (result ≡ some err) × Requeues err p worker_id w after
    unfolding handle_job_failure
    process_job-Requeues err runs remain =
        let ran = process_job-Ran (some err) runs in
        let o : Rescheduled err p ran.ready (failure err ran) =
          handle_job_failure-Rescheduled jobs_order workers_order delayed_order p ran.entry err
            ran.ready p ran.is_saved (retried_or_not err ran ∙ remain) in
        (
          ran.result,
          requeues jobs_order workers_order delayed_order err p worker_id w (failure err ran)
              (process_job storage_port queue_port handlers p worker_id w) ran o ran.concluded,
        )

    -- With the memory adapters, ProcessJob of a saved job whose handler fails, and leaves the job
    -- as it found it, when no attempt is left once this one is counted, returns the handler's error
    -- and leaves the job dead: only the dead letters of the queue change, by the job's id, and the
    -- history has one failed entry more.
    pub process_job-Buries :
        (err : Error)
        → Runs handlers p (w.runtime.cells p).job_type (w.runtime.cells p).payload (some err)
        → attempts_remain (w.runtime.cells p).retry_policy ≡ false
        → let (result, after) = process_job storage_port queue_port handlers p worker_id w in
          (result ≡ some err) × Buries err p worker_id w after
    unfolding handle_job_failure
    process_job-Buries err runs none_remain =
        let ran = process_job-Ran (some err) runs in
        let o : DeadLettered err p ran.ready (failure err ran) =
          handle_job_failure-DeadLettered jobs_order workers_order delayed_order p ran.entry err
            ran.ready p ran.is_saved (retried_or_not err ran ∙ none_remain) in
        (
          ran.result,
          buries jobs_order workers_order delayed_order err p worker_id w (failure err ran)
              (process_job storage_port queue_port handlers p worker_id w) ran o ran.concluded,
        )

    -- With the memory adapters, ProcessJob of a saved job whose handler succeeds, and leaves the
    -- job as it found it, returns no error and leaves the job completed, the queue as it was, the
    -- metric of a completion with the duration of the history entry, and one completed entry more
    -- in the history.
    pub process_job-Completes :
        Runs handlers p (w.runtime.cells p).job_type (w.runtime.cells p).payload none
        → let (result, after) = process_job storage_port queue_port handlers p worker_id w in
          (result ≡ none) × Completes p worker_id w after
    unfolding handle_job_success
    process_job-Completes runs =
        let ran = process_job-Ran none runs in
        (
          ran.result,
          completes jobs_order workers_order delayed_order p worker_id w
              (handle_job_success storage_port queue_port p ran.entry ran.ready).1
              (process_job storage_port queue_port handlers p worker_id w) ran
              (handle_job_success-Completed jobs_order workers_order delayed_order p ran.entry
                ran.ready p ran.is_saved)
              ran.concluded,
        )
