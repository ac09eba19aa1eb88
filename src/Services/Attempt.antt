-- ===== src/Services/Attempt.antt =====
-- ProcessJob of internal/core/services/processor.go up to its outcome, with the memory adapters.
use mathlib.Core.Option.{get_or}
use job_schedular_service.Base.{
  suc, pos, ◌≡◌, refl, ap, ◌∙◌, Option, none, some, [], ◌∷◌, ◌++◌, String, wrap64, ◌+ℤ◌, ◌-ℤ◌,
  saturate64,
}
use job_schedular_service.Base.Map.{Map, get, put, nat_key, string_key}
use job_schedular_service.Domain.Retry.{Time}
use job_schedular_service.Domain.Job.{JobType, Uuid, Error, status_processing, mark_as_processing}
use job_schedular_service.Runtime.{
  Action, JobRef, Runtime, now, new_uuid, write, store_self, since, pure, wrap_error,
}
use job_schedular_service.Ports.{JobHistory, Worker, StoragePort, QueuePort}
use job_schedular_service.Memory.Queue.{MemoryQueue}
use job_schedular_service.Memory.Storage.{MemoryStorage, update_job, save_job_history}
use job_schedular_service.Memory.Ports.{memory_storage, memory_queue}
use job_schedular_service.Services.Processor.{
  JobHandler, Handlers, execute_job, start_job, conclude, attempt_job, process_job,
}
use job_schedular_service.Services.Stages.{MemoryWorld, update_job-saved}

-- The handler that is registered for jobs of the type returns `outcome` for the job as long as it
-- has the payload, and leaves the job itself as it found it.
pub record Runs (handlers : Handlers) (p : JobRef) (job_type : JobType) (payload : String)
    (outcome : Option Error) : Type 0 where
  pub handler : JobHandler
  pub registered : get handlers job_type ≡ some handler
  pub returns : (r : Runtime) → (r.cells p).payload ≡ payload → (handler.handle p r).0 ≡ outcome
  pub keeps :
      (r : Runtime) → (r.cells p).payload ≡ payload → (handler.handle p r).1.cells p ≡ r.cells p
  pub same_platform :
      (r : Runtime) → (r.cells p).payload ≡ payload → (handler.handle p r).1.platform ≡ r.platform

execute_job-Runs :
    (handlers : Handlers) (p : JobRef) (outcome : Option Error) (r : Runtime)
    → (h : Runs handlers p (r.cells p).job_type (r.cells p).payload outcome)
    → execute_job handlers p r ≡ (outcome, (h.handler.handle p r).1)
unfolding execute_job
execute_job-Runs handlers p outcome r h =
    rw (h.registered, execute_job) (ap (λ o. (o, (h.handler.handle p r).1)) (h.returns r refl))

-- ProcessJob's first half: the job is marked and its new state is saved.
pub record Started (worker_id : String) (p : JobRef) (before after : MemoryWorld) : Type 0 where
  pub updated : Time
  pub processed : Time
  pub cell : after.runtime.cells p ≡ record (before.runtime.cells p) {
    status = status_processing;
    worker_id = worker_id;
    updated_at = updated;
    processed_at = some processed;
  }
  pub same_platform : after.runtime.platform ≡ before.runtime.platform
  pub queue : after.queue ≡ before.queue
  pub storage :
      after.storage
      ≡ record before.storage { jobs = put before.storage.jobs (before.runtime.cells p).id p }
  pub metrics : after.metrics ≡ before.metrics

start_job-cells :
    (worker_id : String) (p : JobRef) (r : Runtime)
    → (start_job worker_id p r).1.cells p
      ≡ mark_as_processing worker_id (r.clock r.reads) (r.clock (suc r.reads)) (r.cells p)
unfolding start_job
start_job-cells worker_id p r = store_self _ p _

start_job-platform :
    (worker_id : String) (p : JobRef) (r : Runtime)
    → (start_job worker_id p r).1.platform ≡ r.platform
unfolding start_job
start_job-platform worker_id p r = refl

-- The history is added at the end of the job's.
abbrev pub archived : JobHistory → MemoryWorld → MemoryWorld
archived h w = record w {
  storage = record w.storage {
    history = put w.storage.history h.job_id (get_or (get w.storage.history h.job_id) [] ++ h ∷ []);
  };
}

module _ (jobs_order : Map Uuid JobRef → Map Uuid JobRef)
    (workers_order : Map String Worker → Map String Worker)
    (delayed_order : Map Uuid Time → Map Uuid Time) where
  abbrev storage : StoragePort MemoryStorage
  storage = memory_storage jobs_order workers_order

  abbrev queue : QueuePort MemoryQueue
  queue = memory_queue delayed_order

  pub process_job-Started :
      (handlers : Handlers) (p : JobRef) (worker_id : String) (w : MemoryWorld) (saved : JobRef)
      → get w.storage.jobs (w.runtime.cells p).id ≡ some saved
      → (started : MemoryWorld) × Started worker_id p w started
        × (process_job storage queue handlers p worker_id w
            ≡ attempt_job storage queue handlers p worker_id started)
  unfolding process_job mark_as_processing write now
  process_job-Started handlers p worker_id w saved h = (
    record w { runtime = after.1.0; storage = after.1.1 },
    rw found (record {
      updated = (now marked).0;
      processed = w.runtime.clock (suc w.runtime.reads);
      cell = store_self _ p _ ∙ cc cell;
      same_platform = start_job-platform worker_id p w.runtime;
      queue = refl;
      storage = cc cell;
      metrics = refl;
    }),
    ap
          (λ (u : Option Error × (Runtime × MemoryStorage)).
            resume u.0 (record w { runtime = u.1.0; storage = u.1.1 }))
          found
        ∙ rw found,
  )
    where
      resume : Option Error → Action MemoryWorld (Option Error)
      resume (some err) = pure (some (wrap_error "failed to update job status: " err))
      resume none = attempt_job storage queue handlers p worker_id

      marked : Runtime
      marked = (start_job worker_id p w.runtime).1

      after : Option Error × (Runtime × MemoryStorage)
      after = update_job p (marked, w.storage)

      cell :
          marked.cells p
          ≡ mark_as_processing worker_id
              (w.runtime.clock w.runtime.reads)
              (w.runtime.clock (suc w.runtime.reads))
              (w.runtime.cells p)
      cell = start_job-cells worker_id p w.runtime

      found : after ≡ (
        none,
        (
          write p (record (marked.cells p) { updated_at = (now marked).0 }) (now marked).1,
          record w.storage { jobs = put w.storage.jobs (marked.cells p).id p },
        ),
      )
      found = update_job-saved p marked w.storage saved (rw cell h)

  -- The second half: the handler runs, the job meets its outcome, and the history is kept.
  pub record Attempted (p : JobRef) (worker_id : String) (outcome : Option Error)
      (before after : MemoryWorld) : Type 0 where
    pub ran : Runtime
    pub entry : JobHistory
    pub same_cell : ran.cells p ≡ before.runtime.cells p
    pub same_platform : ran.platform ≡ before.runtime.platform
    pub entry_job : entry.job_id ≡ (before.runtime.cells p).id
    pub entry_worker : entry.worker_id ≡ worker_id
    pub entry_error : entry.error ≡ ""
    pub entry_number :
        entry.attempt_number
        ≡ wrap64 ((before.runtime.cells p).retry_policy.current_attempts +ℤ pos 1)
    pub concluded :
        let (h, w) = conclude storage queue outcome p entry (record before { runtime = ran }) in
        after ≡ archived h w

  pub attempt_job-Attempted :
      (handlers : Handlers) (p : JobRef) (worker_id : String) (outcome : Option Error)
      (w : MemoryWorld)
      → Runs handlers p (w.runtime.cells p).job_type (w.runtime.cells p).payload outcome
      → ((attempt_job storage queue handlers p worker_id w).0 ≡ outcome)
        × Attempted p worker_id outcome w (attempt_job storage queue handlers p worker_id w).1
  unfolding attempt_job save_job_history now new_uuid since
  attempt_job-Attempted handlers p worker_id outcome w h =
      rw (execute_job-Runs handlers p outcome prepared h) (
        refl,
        record {
          ran = ended;
          entry = entry;
          same_cell = h.keeps prepared refl;
          same_platform = h.same_platform prepared refl;
          entry_job = refl;
          entry_worker = refl;
          entry_error = refl;
          entry_number = refl;
          concluded = refl;
        },
      )
    where
      prepared : Runtime
      prepared = record w.runtime {
        reads = suc (suc w.runtime.reads);
        minted = suc w.runtime.minted;
      }

      ended : Runtime
      ended = let r = (h.handler.handle p prepared).1 in record r { reads = suc (suc r.reads) }

      handled : Runtime
      handled = (h.handler.handle p prepared).1

      entry : JobHistory
      entry = record {
        id = ended.uuid_text (w.runtime.ids w.runtime.minted);
        job_id = (w.runtime.cells p).id;
        worker_id = worker_id;
        attempt_number = wrap64 ((w.runtime.cells p).retry_policy.current_attempts +ℤ pos 1);
        started_at = w.runtime.clock w.runtime.reads;
        completed_at = some (handled.clock (suc handled.reads));
        status = "processing";
        error = "";
        duration =
            saturate64 (handled.clock handled.reads -ℤ w.runtime.clock (suc w.runtime.reads));
      }
