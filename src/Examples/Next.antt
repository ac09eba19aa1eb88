-- ===== src/Examples/Next.antt =====
-- Runs of ProcessNextJob of internal/core/services/processor.go, with the memory adapters.
use job_schedular_service.Base.{◌≡◌, refl, none, some, [], ◌∷◌, All, ◌⊎◌}
use job_schedular_service.Base.Map.{get, put, int_key, nat_key}
use job_schedular_service.Domain.Priority.{priority_high}
use job_schedular_service.Memory.Queue.{MemoryQueue, queued, enqueue, dequeue}
use job_schedular_service.Memory.Queue.Invariant.{enqueue-IsWellFormed}
use job_schedular_service.Memory.Storage.{MemoryStorage}
use job_schedular_service.Services.World.{World}
use job_schedular_service.Memory.Queue.Order.{Found}
use job_schedular_service.Memory.Ports.{memory_storage, memory_queue}
use job_schedular_service.Services.Processor.{process_job, process_next_job}
use job_schedular_service.Runtime.{wrap_error}
use job_schedular_service.Ports.{StoragePort}
use job_schedular_service.Services.Unsaved.{process_next_job-unsaved}
use job_schedular_service.Services.Next.{process_next_job-Served}
use job_schedular_service.Examples.{world, runtime, waiting_queue, same_order}
use job_schedular_service.Examples.Queue.{waiting_queue-IsWellFormed}

-- A job is in the lane that is asked for.
abbrev serving : World MemoryStorage MemoryQueue
serving = record world { queue = (enqueue 1 (runtime, waiting_queue)).1.1 }

process_next_job-Served_example :
    let call =
      process_next_job
        (memory_storage same_order same_order)
        (memory_queue same_order)
        []
        "w"
        (priority_high ∷ [])
        serving in
    (All (λ p. queued serving.queue.queues p ≡ []) (priority_high ∷ [])
      × (call ≡ (some "failed to dequeue job: no jobs available", serving)))
    ⊎ ((f : Found serving.queue (priority_high ∷ [])) × (call
          ≡ process_job
              (memory_storage same_order same_order)
              (memory_queue same_order)
              []
              f.job
              "w"
              (record serving {
                queue = record serving.queue {
                  queues = put serving.queue.queues f.priority f.rest;
                };
              })))
process_next_job-Served_example =
    process_next_job-Served same_order same_order same_order [] "w" (priority_high ∷ []) serving
      (enqueue-IsWellFormed 1 runtime waiting_queue waiting_queue-IsWellFormed)

-- A storage that can change nothing.
abbrev read_only_storage : StoragePort MemoryStorage
read_only_storage = record (memory_storage same_order same_order) {
  update_job = λ p s. (some "read only", s);
}

serving_dequeue :
    ((memory_queue same_order).dequeue (priority_high ∷ []) (serving.runtime, serving.queue)).0
    ≡ (some 1, none)
unfolding enqueue dequeue queued get put
serving_dequeue = refl

process_next_job-unsaved_example :
    let (result, after) =
      process_next_job read_only_storage
        (memory_queue same_order)
        []
        "w"
        (priority_high ∷ [])
        serving in
    (result ≡ some (wrap_error "failed to update job status: " "read only"))
    × (after.queue
        ≡ ((memory_queue same_order).dequeue
            (priority_high ∷ [])
            (serving.runtime, serving.queue)).1.1)
    × (after.metrics ≡ serving.metrics)
    × (after.logs ≡ serving.logs)
process_next_job-unsaved_example =
    process_next_job-unsaved read_only_storage (memory_queue same_order) [] "w" (priority_high ∷ [])
      serving 1 "read only" serving_dequeue (λ q s. refl)
