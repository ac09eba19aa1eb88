-- ===== src/Services/Next.antt =====
-- ProcessNextJob of internal/core/services/processor.go, with the memory adapters.
use job_schedular_service.Base.{◌≡◌, ap, String, Option, some, List, [], All, ◌⊎◌, inl, inr}
use job_schedular_service.Base.Map.{Map, put, int_key}
use job_schedular_service.Domain.Priority.{Priority}
use job_schedular_service.Domain.Retry.{Time}
use job_schedular_service.Domain.Job.{Uuid, Error}
use job_schedular_service.Runtime.{JobRef}
use job_schedular_service.Ports.{Worker}
use job_schedular_service.Memory.Queue.{MemoryQueue, queued, dequeue}
use job_schedular_service.Memory.Queue.Invariant.{IsWellFormed}
use job_schedular_service.Memory.Queue.Order.{Found, dequeue_from-Served}
use job_schedular_service.Memory.Ports.{memory_storage, memory_queue}
use job_schedular_service.Services.Processor.{
  Handlers, process_job, process_next_job, after_dequeue,
}
use job_schedular_service.Services.Stages.{MemoryWorld}

module _ (jobs_order : Map Uuid JobRef → Map Uuid JobRef)
    (workers_order : Map String Worker → Map String Worker)
    (delayed_order : Map Uuid Time → Map Uuid Time) (handlers : Handlers) (worker_id : String) where
  -- With the memory adapters and a well-formed queue, ProcessNextJob either finds all the lanes
  -- asked for empty, changes nothing and returns the error of Dequeue, wrapped, or it takes the job
  -- at the front of the first lane that is not empty off its lane and is ProcessJob of that job.
  pub process_next_job-Served :
      (priorities : List Priority) (w : MemoryWorld)
      → IsWellFormed w.runtime w.queue
      → let call =
          process_next_job
            (memory_storage jobs_order workers_order)
            (memory_queue delayed_order)
            handlers
            worker_id
            priorities
            w in
        (All (λ p. queued w.queue.queues p ≡ []) priorities
          × (call ≡ (some "failed to dequeue job: no jobs available", w)))
        ⊎ ((f : Found w.queue priorities) × (call
              ≡ process_job
                  (memory_storage jobs_order workers_order)
                  (memory_queue delayed_order)
                  handlers
                  f.job
                  worker_id
                  (record w {
                    queue = record w.queue { queues = put w.queue.queues f.priority f.rest };
                  })))
  unfolding process_next_job after_dequeue dequeue
  process_next_job-Served priorities w h =
      elim (dequeue_from-Served w.runtime w.queue priorities h) [
        | inl (empty, e) ↦ inl (empty, ap resume e)
        | inr (f, e) ↦ inr (f, ap resume e)
      ]
    where
      resume : Option JobRef × Option Error × MemoryQueue → Option Error × MemoryWorld
      resume (job, err, m) =
          after_dequeue (memory_storage jobs_order workers_order) (memory_queue delayed_order)
            handlers worker_id job err (record w { queue = m })
