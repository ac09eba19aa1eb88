-- ===== src/Services/Course.antt =====
-- The course of ProcessJob of internal/core/services/processor.go, with the memory adapters, and
-- what its parts come to.
use job_schedular_service.Base.{
  suc, pos, ◌≡◌, refl, ap, ◌∙◌, subst, Option, none, some, String, wrap64, ◌+ℤ◌, if◌then◌else◌,
}
use job_schedular_service.Base.Map.{Map, get, put, get-put, eqb_refl, nat_key}
use job_schedular_service.Domain.Retry.{Time}
use job_schedular_service.Domain.Job.{
  next_retry_at, Job, Uuid, Error, status_processing, can_retry, mark_as_failed,
}
use job_schedular_service.Domain.Job.Transitions.{attempts_remain, can_retry-mark_as_failed}
use job_schedular_service.Runtime.{Platform, JobRef, Runtime}
use job_schedular_service.Ports.{JobHistory, Worker, StoragePort, QueuePort}
use job_schedular_service.Memory.Queue.{MemoryQueue}
use job_schedular_service.Memory.Storage.{MemoryStorage}
use job_schedular_service.Memory.Ports.{memory_storage, memory_queue}
use job_schedular_service.Services.Processor.{conclude}
use job_schedular_service.Services.Stages.{MemoryWorld, failed_job}
use job_schedular_service.Services.Outcome.{Rescheduled, DeadLettered, Completed}
use job_schedular_service.Services.Attempt.{archived}
use job_schedular_service.Services.Effects.{Recorded, Requeues, Buries, Completes}

pub can_retry_failed :
    (err : Error) (r : Runtime) (j : Job)
    → can_retry (failed_job err r j) ≡ attempts_remain j.retry_policy
can_retry_failed err r j =
    can_retry-mark_as_failed err (r.clock r.reads) (r.clock (suc r.reads))
      (r.clock (suc (suc r.reads))) j

pub get-put_same : (m : Map Uuid JobRef) (id : Uuid) (p : JobRef) → get (put m id p) id ≡ some p
get-put_same m id p = get-put m id id p ∙ ap (λ b. if b then some p else get m id) (eqb_refl id)

module _ (jobs_order : Map Uuid JobRef → Map Uuid JobRef)
    (workers_order : Map String Worker → Map String Worker)
    (delayed_order : Map Uuid Time → Map Uuid Time) where
  abbrev storage_port : StoragePort MemoryStorage
  storage_port = memory_storage jobs_order workers_order

  abbrev queue_port : QueuePort MemoryQueue
  queue_port = memory_queue delayed_order

  -- ProcessJob is its handler's run, and then the job's way by the outcome, in a world where the
  -- job is being processed and saved.
  pub record Ran (p : JobRef) (worker_id : String) (outcome : Option Error) (before : MemoryWorld)
      (call : Option Error × MemoryWorld) : Type 0 where
    pub ready : MemoryWorld
    pub entry : JobHistory
    pub updated : Time
    pub processed : Time
    pub cell : ready.runtime.cells p ≡ record (before.runtime.cells p) {
      status = status_processing;
      worker_id = worker_id;
      updated_at = updated;
      processed_at = some processed;
    }
    pub queue : ready.queue ≡ before.queue
    pub storage :
        ready.storage
        ≡ record before.storage { jobs = put before.storage.jobs (before.runtime.cells p).id p }
    pub metrics : ready.metrics ≡ before.metrics
    pub is_saved : get ready.storage.jobs (ready.runtime.cells p).id ≡ some p
    pub same_platform : ready.runtime.platform ≡ before.runtime.platform
    pub entry_job : entry.job_id ≡ (before.runtime.cells p).id
    pub entry_worker : entry.worker_id ≡ worker_id
    pub entry_error : entry.error ≡ ""
    pub entry_number :
        entry.attempt_number
        ≡ wrap64 ((before.runtime.cells p).retry_policy.current_attempts +ℤ pos 1)
    pub result : call.0 ≡ outcome
    pub concluded :
        let (h, w) = conclude storage_port queue_port outcome p entry ready in call.1 ≡ archived h w

  unfoldable recorded :
      {outcome : Option Error} (p : JobRef) (worker_id : String) (before after : MemoryWorld)
      (h : JobHistory) (call : Option Error × MemoryWorld)
      (ran : Ran p worker_id outcome before call)
      → call.1 ≡ archived h after
      → after.storage ≡ record ran.ready.storage {
        jobs = put ran.ready.storage.jobs (ran.ready.runtime.cells p).id p;
      }
      → h ≡ record ran.entry { status = h.status; error = h.error }
      → Recorded p worker_id h.status h.error before call.1
  recorded p worker_id before after h call ran e storage entry = record {
    entry = h;
    attempt_number = ap (λ (g : JobHistory). g.attempt_number) entry ∙ ran.entry_number;
    by_worker = ap (λ (g : JobHistory). g.worker_id) entry ∙ ran.entry_worker;
    with_status = refl;
    with_error = refl;
    kept = rw (e, storage, ran.storage, ap (λ (g : JobHistory). g.job_id) entry, ran.entry_job);
    is_saved =
        rw (e, storage, ran.cell)
          (get-put_same ran.ready.storage.jobs (before.runtime.cells p).id p);
  }

  pub requeues :
      (err : Error) (p : JobRef) (worker_id : String) (before after : MemoryWorld)
      (call : Option Error × MemoryWorld) (ran : Ran p worker_id (some err) before call)
      → Rescheduled err p ran.ready after
      → call.1 ≡ archived (record ran.entry { status = "failed"; error = err }) after
      → Requeues err p worker_id before call.1
  unfolding mark_as_failed next_retry_at
  requeues err p worker_id before after call ran o e = record {
    id = rw (e, o.cell, ran.cell);
    job_type = rw (e, o.cell, ran.cell);
    payload = rw (e, o.cell, ran.cell);
    max_attempts = rw (e, o.cell, ran.cell);
    status = rw (e, o.cell);
    attempts = rw (e, o.cell, ran.cell);
    last_error = rw (e, o.cell);
    queue = rw (e, o.cell, o.queue, ran.queue, ran.cell);
    due = (
      o.when.0,
      rw (e, o.cell)
          (o.when.1
            ∙ ap
                (λ (x : Platform).
                  next_retry_at x.float_overflow o.when.0
                    (failed_job err ran.ready.runtime (ran.ready.runtime.cells p)))
                ran.same_platform),
    );
    metrics = rw (e, o.metrics, ran.metrics, ran.cell);
    recorded =
        recorded p worker_id before after (record ran.entry { status = "failed"; error = err }) call
          ran e o.storage refl;
  }

  pub buries :
      (err : Error) (p : JobRef) (worker_id : String) (before after : MemoryWorld)
      (call : Option Error × MemoryWorld) (ran : Ran p worker_id (some err) before call)
      → DeadLettered err p ran.ready after
      → call.1 ≡ archived (record ran.entry { status = "failed"; error = err }) after
      → Buries err p worker_id before call.1
  unfolding mark_as_failed
  buries err p worker_id before after call ran o e = record {
    status = rw (e, o.cell);
    attempts = rw (e, o.cell, ran.cell);
    last_error = rw (e, o.cell);
    queue = rw (e, o.queue, ran.queue, ran.cell);
    metrics = rw (e, o.metrics, ran.metrics, ran.cell);
    recorded =
        recorded p worker_id before after (record ran.entry { status = "failed"; error = err }) call
          ran e o.storage refl;
  }

  pub completes :
      (p : JobRef) (worker_id : String) (before after : MemoryWorld)
      (call : Option Error × MemoryWorld) (ran : Ran p worker_id none before call)
      → Completed ran.entry p ran.ready after
      → call.1 ≡ archived (record ran.entry { status = "completed" }) after
      → Completes p worker_id before call.1
  unfolding recorded
  completes p worker_id before after call ran o e = record {
    status = rw (e, o.cell);
    retry_policy = rw (e, o.cell, ran.cell);
    completed = (o.finished, rw (e, o.cell));
    queue = rw (e, o.queue, ran.queue);
    metrics = rw (e, o.metrics, ran.metrics, ran.cell);
    recorded =
        subst (λ (x : String). Recorded p worker_id "completed" x before call.1) ran.entry_error
          (recorded p worker_id before after (record ran.entry { status = "completed" }) call ran e
            o.storage refl);
  }
