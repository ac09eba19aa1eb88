-- ===== src/Examples/Services.antt =====
-- Runs of internal/core/services, with the memory adapters.
use job_schedular_service.Base.{
  pos, ◌≡◌, refl, arith, some, none, [], ◌∷◌, ◌++◌, Option, wrap64, ◌+ℤ◌, ◌-ℤ◌,
}
use job_schedular_service.Base.Map.{get, put, nat_key, int_key, string_key}
use job_schedular_service.Domain.Priority.{priority_high, priority_low}
use job_schedular_service.Domain.Retry.{Time}
use job_schedular_service.Domain.Job.{
  Job, Error, status_pending, status_scheduled, status_dead, status_completed, job_type_email,
}
use job_schedular_service.Runtime.{JobRef, wrap_error}
use job_schedular_service.Ports.{StoragePort}
use job_schedular_service.Memory.Queue.{MemoryQueue, queued}
use job_schedular_service.Memory.Storage.{MemoryStorage}
use job_schedular_service.Memory.Ports.{memory_storage, memory_queue}
use job_schedular_service.Services.World.{World}
use job_schedular_service.Services.Scheduler.{ScheduleJobRequest, schedule_job}
use job_schedular_service.Services.Processor.{JobHandler, Handlers, process_job, process_next_job}
use job_schedular_service.Services.Stages.{delayed_until}
use job_schedular_service.Services.Attempt.{Runs}
use job_schedular_service.Services.Effects.{Requeues, Buries, Completes}
use job_schedular_service.Services.Lifecycle.{
  process_job-Requeues, process_job-Buries, process_job-Completes,
}
use job_schedular_service.Services.Retries.{
  process_times, process_times-scheduled, process_times-dead,
}
use job_schedular_service.Services.EndToEnd.{schedule_job-process_next_job}
use job_schedular_service.Services.Unsaved.{schedule_job-unsaved}
use job_schedular_service.Services.Scheduling.{
  Scheduled, schedule_job-immediate, schedule_job-delayed,
}
use job_schedular_service.Examples.{runtime, storage, world, policy, same_order}

-- A handler of emails that always returns `outcome`.
abbrev constant_handler : Option Error → JobHandler
constant_handler outcome = record { handle = λ p r. (outcome, r); get_type = job_type_email }

abbrev registered : Option Error → Handlers
registered outcome = (job_type_email, constant_handler outcome) ∷ []

constant_handler-Runs :
    (outcome : Option Error) (p : JobRef) → Runs (registered outcome) p job_type_email "{}" outcome
unfolding get
constant_handler-Runs outcome p = record {
  handler = constant_handler outcome;
  registered = refl;
  returns = λ r h. refl;
  keeps = λ r h. refl;
  same_platform = λ r h. refl;
}

job_is_saved : get storage.jobs 101 ≡ some 1
unfolding get
job_is_saved = refl

process_job-Requeues_example :
    let (result, after) =
      process_job
        (memory_storage same_order same_order)
        (memory_queue same_order)
        (registered (some "boom"))
        1
        "w"
        world in
    (result ≡ some "boom") × Requeues "boom" 1 "w" world after
process_job-Requeues_example =
    process_job-Requeues same_order same_order same_order (registered (some "boom")) 1 "w" world 1
      job_is_saved "boom" (constant_handler-Runs (some "boom") 1)
      (unfold wrap64 in unfold ◌+ℤ◌ in unfold ◌-ℤ◌ in refl)

process_job-Completes_example :
    let (result, after) =
      process_job
        (memory_storage same_order same_order)
        (memory_queue same_order)
        (registered none)
        1
        "w"
        world in
    (result ≡ none) × Completes 1 "w" world after
process_job-Completes_example =
    process_job-Completes same_order same_order same_order (registered none) 1 "w" world 1
      job_is_saved (constant_handler-Runs none 1)

-- One attempt is left, which the failing run takes.
abbrev last_chance : World MemoryStorage MemoryQueue
last_chance = record world {
  runtime = record runtime {
    cells = λ p. record (runtime.cells p) { retry_policy = policy (pos 3) (pos 2) };
  };
}

process_job-Buries_example :
    let (result, after) =
      process_job
        (memory_storage same_order same_order)
        (memory_queue same_order)
        (registered (some "boom"))
        1
        "w"
        last_chance in
    (result ≡ some "boom") × Buries "boom" 1 "w" last_chance after
process_job-Buries_example =
    process_job-Buries same_order same_order same_order (registered (some "boom")) 1 "w" last_chance
      1 job_is_saved "boom" (constant_handler-Runs (some "boom") 1)
      (unfold wrap64 in unfold ◌+ℤ◌ in unfold ◌-ℤ◌ in refl)

process_times-dead_example :
    let after =
      process_times same_order same_order same_order (registered (some "boom")) 1 "w" 2 world in
    ((after.runtime.cells 1).status ≡ status_dead)
    × ((after.runtime.cells 1).retry_policy.current_attempts ≡ pos 3)
    × (after.queue.dead_letter ≡ 101 ∷ [])
process_times-dead_example =
    process_times-dead same_order same_order same_order (registered (some "boom")) 1 "w" world 1
      "boom" 1 3 job_is_saved (constant_handler-Runs (some "boom") 1) refl refl (omega arith) 1 refl

process_times-scheduled_example :
    let after =
      process_times same_order same_order same_order (registered (some "boom")) 1 "w" 1 world in
    ((after.runtime.cells 1).status ≡ status_scheduled)
    × ((after.runtime.cells 1).retry_policy.current_attempts ≡ pos 2)
    × (after.queue.dead_letter ≡ [])
process_times-scheduled_example =
    process_times-scheduled same_order same_order same_order (registered (some "boom")) 1 "w" world
      1 "boom" 1 3 job_is_saved (constant_handler-Runs (some "boom") 1) refl refl (omega arith) 0
      (omega arith)

abbrev request : Option Time → ScheduleJobRequest
request at = record {
  job_type = job_type_email;
  priority = priority_high;
  payload = "{}";
  metadata = none;
  retry_policy = none;
  schedule_at = at;
}

schedule_job-immediate_example :
    let call =
      schedule_job
        (memory_storage same_order same_order)
        (memory_queue same_order)
        (request none)
        world in
    (job : Job) × Scheduled (request none) world call job
    × (job.status ≡ status_pending)
    × (call.1.queue ≡ record world.queue {
      job_storage = put world.queue.job_storage job.id 7;
      queues =
          put world.queue.queues job.priority
            (queued world.queue.queues job.priority ++ job.id ∷ []);
    })
schedule_job-immediate_example =
    schedule_job-immediate same_order same_order same_order (request none) world refl

schedule_job-delayed_example :
    let call =
      schedule_job
        (memory_storage same_order same_order)
        (memory_queue same_order)
        (request (some (pos 9999)))
        world in
    (job : Job) × Scheduled (request (some (pos 9999))) world call job
    × (job.status ≡ status_scheduled)
    × (call.1.queue ≡ delayed_until (pos 9999) 7 job world.queue)
schedule_job-delayed_example =
    schedule_job-delayed same_order same_order same_order (request (some (pos 9999))) world
      (pos 9999) refl (ground arith)

-- A storage that can save nothing.
abbrev full_storage : StoragePort MemoryStorage
full_storage = record (memory_storage same_order same_order) {
  save_job = λ p s. (some "disk full", s);
}

schedule_job-unsaved_example :
    let (result, after) =
      schedule_job full_storage (memory_queue same_order) (request none) world in
    (result ≡ (none, some (wrap_error "failed to save job: " "disk full")))
    × (after.queue ≡ world.queue)
    × (after.metrics ≡ world.metrics)
schedule_job-unsaved_example =
    schedule_job-unsaved full_storage (memory_queue same_order) (request none) world "disk full"
      (λ p s. refl)

schedule_job-process_next_job_example :
    let accepted =
      (schedule_job
        (memory_storage same_order same_order)
        (memory_queue same_order)
        (request none)
        world).1 in
    let (result, after) =
      process_next_job
        (memory_storage same_order same_order)
        (memory_queue same_order)
        (registered none)
        "w"
        (priority_high ∷ priority_low ∷ [])
        accepted in
    (result ≡ none)
    × ((after.runtime.cells 7).status ≡ status_completed)
    × (queued after.queue.queues priority_high ≡ [])
    × (get after.storage.jobs 0 ≡ some 7)
unfolding queued get
schedule_job-process_next_job_example =
    schedule_job-process_next_job same_order same_order same_order (request none) world
      (registered none) "w" (priority_low ∷ []) refl refl (constant_handler-Runs none 7)
