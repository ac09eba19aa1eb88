-- ===== src/Services/Unsaved.antt =====
-- ScheduleJob of internal/core/services/schedular.go and ProcessNextJob of
-- internal/core/services/processor.go when the job cannot be saved, whatever the adapters are.
use job_schedular_service.Base.{◌≡◌, refl, ap, Option, none, some, String, List}
use job_schedular_service.Domain.Priority.{Priority}
use job_schedular_service.Base.Map.{nat_key, int_key}
use job_schedular_service.Domain.Job.{Error}
use job_schedular_service.Runtime.{JobRef, Runtime, wrap_error}
use job_schedular_service.Ports.{StoragePort, QueuePort}
use job_schedular_service.Services.World.{World}
use job_schedular_service.Services.Processor.{
  Handlers, start_job, attempt_job, process_job, after_dequeue, process_next_job,
}
use job_schedular_service.Services.Scheduler.{ScheduleJobRequest, submit, after_save, schedule_job}

submit-unsaved :
    {T Q : Type 0} (storage : StoragePort T) (queue : QueuePort Q) (p : JobRef) (w : World T Q)
    (err : Error)
    → (storage.save_job p (w.runtime, w.storage)).0 ≡ some err
    → let (result, after) = submit storage queue p w in
      (result ≡ (none, some (wrap_error "failed to save job: " err)))
      × (after.queue ≡ w.queue)
      × (after.metrics ≡ w.metrics)
unfolding submit after_save
submit-unsaved storage queue p w err fails = rw (submit, fails, after_save) (refl, refl, refl)

-- If the storage, whichever it is, refuses every job with the same error, ScheduleJob returns no
-- job and that error, wrapped, and the queue and the metrics have not changed.
pub schedule_job-unsaved :
    {T Q : Type 0} (storage : StoragePort T) (queue : QueuePort Q) (req : ScheduleJobRequest)
    (w : World T Q) (err : Error)
    → ((p : JobRef) (s : Runtime × T) → (storage.save_job p s).0 ≡ some err)
    → let (result, after) = schedule_job storage queue req w in
      (result ≡ (none, some (wrap_error "failed to save job: " err)))
      × (after.queue ≡ w.queue)
      × (after.metrics ≡ w.metrics)
unfolding schedule_job
schedule_job-unsaved storage queue req w err fails =
    submit-unsaved storage queue _ _ err (fails _ _)

process_job-unsaved :
    {T Q : Type 0} (storage : StoragePort T) (queue : QueuePort Q) (handlers : Handlers)
    (p : JobRef) (worker_id : String) (w : World T Q) (err : Error)
    → ((q : JobRef) (s : Runtime × T) → (storage.update_job q s).0 ≡ some err)
    → let (result, after) = process_job storage queue handlers p worker_id w in
      (result ≡ some (wrap_error "failed to update job status: " err))
      × (after.queue ≡ w.queue)
      × (after.metrics ≡ w.metrics)
      × (after.logs ≡ w.logs)
unfolding process_job
process_job-unsaved {T} {Q} storage queue handlers p worker_id w err fails =
    rw stopped (refl, refl, refl, refl)
  where
    resume : Option Error → World T Q → Option Error × World T Q
    resume (some e) v = (some (wrap_error "failed to update job status: " e), v)
    resume none v = attempt_job storage queue handlers p worker_id v

    updated : Option Error × (Runtime × T)
    updated = storage.update_job p ((start_job worker_id p w.runtime).1, w.storage)

    after : World T Q
    after = record w { runtime = updated.1.0; storage = updated.1.1 }

    stopped :
        process_job storage queue handlers p worker_id w
        ≡ (some (wrap_error "failed to update job status: " err), after)
    stopped = ap (λ e. resume e after) (fails p ((start_job worker_id p w.runtime).1, w.storage))

-- If the storage, whichever it is, refuses every update of a job with the same error, and the
-- queue, whichever it is, gives out a job, ProcessNextJob returns that error, wrapped, adds nothing
-- to the metrics or the log, and leaves the queue as Dequeue left it: the job is not put back.
pub process_next_job-unsaved :
    {T Q : Type 0} (storage : StoragePort T) (queue : QueuePort Q) (handlers : Handlers)
    (worker_id : String) (priorities : List Priority) (w : World T Q) (p : JobRef) (err : Error)
    → (queue.dequeue priorities (w.runtime, w.queue)).0 ≡ (some p, none)
    → ((q : JobRef) (s : Runtime × T) → (storage.update_job q s).0 ≡ some err)
    → let (result, after) = process_next_job storage queue handlers worker_id priorities w in
      (result ≡ some (wrap_error "failed to update job status: " err))
      × (after.queue ≡ (queue.dequeue priorities (w.runtime, w.queue)).1.1)
      × (after.metrics ≡ w.metrics)
      × (after.logs ≡ w.logs)
unfolding process_next_job after_dequeue
process_next_job-unsaved storage queue handlers worker_id priorities w p err served fails =
    let dequeued = queue.dequeue priorities (w.runtime, w.queue) in
    let job : dequeued.0.0 ≡ some p = ap (λ (c : Option JobRef × Option Error). c.0) served in
    let no_error : dequeued.0.1 ≡ none = ap (λ (c : Option JobRef × Option Error). c.1) served in
    rw (no_error, job, after_dequeue)
      (process_job-unsaved storage queue handlers p worker_id
        (record w { runtime = dequeued.1.0; queue = dequeued.1.1 }) err fails)
