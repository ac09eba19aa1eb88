-- ===== src/Pipeline/Next.antt =====
-- ProcessNextJob of internal/core/services/processor.go on a memory queue, as steps of the pipeline.
use job_schedular_service.Base.{subst, ◌≡◌, some, List, [], ◌∷◌, Option, String, inl, inr, ◌⊎◌}
use job_schedular_service.Base.Map.{Map, string_key}
use job_schedular_service.Domain.Priority.{Priority}
use job_schedular_service.Domain.Retry.{Time}
use job_schedular_service.Domain.Job.{Uuid, Error}
use job_schedular_service.Runtime.{wrap_error, JobRef}
use job_schedular_service.Ports.{StoragePort}
use job_schedular_service.Memory.Queue.{MemoryQueue}
use job_schedular_service.Memory.Ports.{memory_queue}
use job_schedular_service.Services.World.{World}
use job_schedular_service.Services.Processor.{Handlers, process_next_job, after_dequeue}
use job_schedular_service.Pipeline.{Held, Reachable}
use job_schedular_service.Pipeline.Moves.{snapshot}
use job_schedular_service.Base.Map.{put, int_key, nat_key}
use job_schedular_service.Memory.Queue.{dequeue}
use job_schedular_service.Memory.Queue.Order.{dequeue_from-Served}
use job_schedular_service.Pipeline.{later, takes, taken}
use job_schedular_service.Pipeline.Places.{Reachable-IsConserved}
use job_schedular_service.Pipeline.Keeping.{AreKeeping}
use job_schedular_service.Pipeline.Processing.{IsKeepingStorage, finished, process_job-Disposes}

-- The completed jobs after an attempt of each of the jobs, with that outcome.
abbrev pub finished_all : Option Error → List Held → List Uuid → List Uuid
finished_all outcome [] completed = completed
finished_all outcome (k ∷ held) completed =
    finished_all outcome held (finished outcome k.0 completed)

module _ {T : Type 0} (storage : StoragePort T) (order : Map Uuid Time → Map Uuid Time) where
  -- With a memory queue, and a storage and handlers that change no job's id: a call of
  -- ProcessNextJob leads from a state that the pipeline reaches, in which workers hold the jobs
  -- `hs`, to one that it reaches. Either `hs` are held after it, and the job that Dequeue gave out
  -- is completed if no error is returned, and no job is if there is an error; or the error says that
  -- the status of the job could not be updated, and that job counts as held besides `hs`.
  pub process_next_job-Reachable :
      (hs : List Held) (handlers : Handlers) (worker_id : String) (priorities : List Priority)
      (w : World T MemoryQueue) (completed scheduled : List Uuid)
      → IsKeepingStorage storage
      → AreKeeping handlers
      → Reachable (snapshot w hs completed scheduled)
      → let (result, w') =
          process_next_job storage (memory_queue order) handlers worker_id priorities w in
        let given = (dequeue priorities (w.runtime, w.queue)).0.0 in
        Reachable
          (snapshot w' hs (finished_all result (taken w.runtime given []) completed) scheduled)
        ⊎ (Reachable (snapshot w' (taken w.runtime given hs) completed scheduled)
            × ((err : Error) × (result ≡ some (wrap_error "failed to update job status: " err))))
  unfolding process_next_job after_dequeue dequeue
  process_next_job-Reachable hs handlers worker_id ps w completed scheduled ok keeping r =
      elim (dequeue_from-Served w.runtime w.queue ps (Reachable-IsConserved r).queue.well_formed) [
        | inl (empty, e) ↦ rw e (inl r)
        | inr (f, e) ↦
            let k : Held = ((w.runtime.cells f.job).id, f.job) in
            let w₁ = record w {
              queue = record w.queue { queues = put w.queue.queues f.priority f.rest };
            } in
            let r₁ : Reachable (snapshot w₁ (k ∷ hs) completed scheduled) =
              subst
                (λ (x : Option JobRef × Option Error × MemoryQueue). Reachable (record {
                  queue = (w.runtime, x.2);
                  held = taken w.runtime x.0 hs;
                  completed = completed;
                  scheduled = scheduled;
                }))
                e (later r (takes ps)) in
            rw e (
              process_job-Disposes storage order ok hs handlers k.0 f.job worker_id w₁ completed
                scheduled keeping r₁)
      ]
