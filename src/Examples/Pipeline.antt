-- ===== src/Examples/Pipeline.antt =====
-- Runs of the services of internal/core/services on a new memory queue.
use job_schedular_service.Base.{◌≡◌, ◌≤◌, refl, none, some, [], ◌∷◌, pos, arith, ◌⊎◌, ◌≢◌}
use job_schedular_service.Base.Map.{put, get}
use job_schedular_service.Domain.Priority.{priority_high}
use job_schedular_service.Domain.Job.{Error, job_type_email}
use job_schedular_service.Runtime.{wrap_error}
use job_schedular_service.Memory.Queue.{new_memory_queue, MemoryQueue, enqueue, dequeue, queued}
use job_schedular_service.Memory.Storage.{MemoryStorage}
use job_schedular_service.Memory.Ports.{memory_storage, memory_queue}
use job_schedular_service.Services.World.{World}
use job_schedular_service.Services.Processor.{JobHandler, register_handler, process_next_job}
use job_schedular_service.Services.Scheduler.{ScheduleJobRequest, schedule_job}
use job_schedular_service.Pipeline.{
  Pipeline, Reachable, fresh, later, schedules, takes, completes, places, count,
}
use job_schedular_service.Pipeline.Moves.{snapshot, Keeps-refl}
use job_schedular_service.Pipeline.Places.{Reachable-places}
use job_schedular_service.Pipeline.Next.{finished_all, process_next_job-Reachable}
use job_schedular_service.Pipeline.Scheduling.{schedule_job-Reachable}
use job_schedular_service.Pipeline.Adapters.{
  memory_storage-IsKeepingStorage, save_job-Keeps, register_handler-AreKeeping,
  no_handlers-AreKeeping,
}
use job_schedular_service.Examples.{world, runtime, same_order}

-- The job 101 was scheduled, taken and completed.
abbrev done : Pipeline
done = record {
  queue = (dequeue (priority_high ∷ []) (enqueue 1 (runtime, new_memory_queue)).1).1;
  held = [];
  completed = 101 ∷ [];
  scheduled = 101 ∷ [];
}

done-Reachable : Reachable done
unfolding enqueue dequeue queued put get
done-Reachable =
    later
      (later (later (fresh runtime) (schedules 1 (omega arith) refl)) (takes (priority_high ∷ [])))
      (completes [] [] (101, 1) refl)

Reachable-places_example : (places 101 done ≡ count 101 done.scheduled) × (places 101 done ≤ 1)
Reachable-places_example = Reachable-places 101 done-Reachable

-- The job 101 waits in its lane.
abbrev queued_world : World MemoryStorage MemoryQueue
queued_world = record world { queue = (enqueue 1 (runtime, new_memory_queue)).1.1 }

queued_world-Reachable : Reachable (snapshot queued_world [] [] (101 ∷ []))
unfolding enqueue
queued_world-Reachable = later (fresh runtime) (schedules 1 (omega arith) refl)

abbrev email_works : JobHandler
email_works = record { handle = λ p r. (none, r); get_type = job_type_email }

process_next_job-Reachable_example :
    let (result, w') =
      process_next_job
        (memory_storage same_order same_order)
        (memory_queue same_order)
        (register_handler email_works [])
        "w"
        (priority_high ∷ [])
        queued_world in
    Reachable (snapshot w' [] (finished_all result ((101, 1) ∷ []) []) (101 ∷ []))
    ⊎ (Reachable (snapshot w' ((101, 1) ∷ []) [] (101 ∷ []))
        × ((err : Error) × (result ≡ some (wrap_error "failed to update job status: " err))))
unfolding dequeue enqueue queued put get
process_next_job-Reachable_example =
    process_next_job-Reachable (memory_storage same_order same_order) same_order []
      (register_handler email_works []) "w" (priority_high ∷ []) queued_world [] (101 ∷ [])
      (memory_storage-IsKeepingStorage same_order same_order)
      (register_handler-AreKeeping email_works [] (λ p r. Keeps-refl r) no_handlers-AreKeeping)
      queued_world-Reachable

abbrev new_world : World MemoryStorage MemoryQueue
new_world = record world { queue = new_memory_queue }

abbrev request : ScheduleJobRequest
request = record {
  job_type = job_type_email;
  priority = pos 0;
  payload = "{}";
  metadata = none;
  retry_policy = none;
  schedule_at = none;
}

schedule_job-Reachable_example :
    let ((job, err), w') =
      schedule_job
        (memory_storage same_order same_order)
        (memory_queue same_order)
        request
        new_world in
    ((job ≡ some 7) × (err ≡ none) × Reachable (snapshot w' [] [] (0 ∷ [])))
    ⊎ ((job ≡ none) × (err ≢ none) × Reachable (snapshot w' [] [] []))
schedule_job-Reachable_example =
    schedule_job-Reachable (memory_storage same_order same_order) same_order [] [] [] request
      new_world save_job-Keeps refl (fresh runtime)
