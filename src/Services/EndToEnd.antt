-- ===== src/Services/EndToEnd.antt =====
-- A job from ScheduleJob of internal/core/services/schedular.go to ProcessNextJob of
-- internal/core/services/processor.go, with the memory adapters.
use job_schedular_service.Base.{
  pos, ◌≡◌, sym, ap, ◌∙◌, false, Option, none, some, List, [], ◌∷◌, ◌++◌, String, int_eqb,
  if◌then◌else◌,
}
use job_schedular_service.Base.Map.{Map, get, put, eqb_refl, nat_key, int_key}
use job_schedular_service.Domain.Priority.{Priority, priority_medium}
use job_schedular_service.Domain.Retry.{Time}
use job_schedular_service.Domain.Job.{Job, Uuid, Error, status_completed}
use job_schedular_service.Runtime.{JobRef}
use job_schedular_service.Ports.{Worker, StoragePort, QueuePort}
use job_schedular_service.Memory.Queue.{MemoryQueue, queued, dequeue_from, dequeue}
use job_schedular_service.Memory.Queue.Invariant.{queued-put}
use job_schedular_service.Memory.Storage.{MemoryStorage}
use job_schedular_service.Memory.Ports.{memory_storage, memory_queue}
use job_schedular_service.Services.Scheduler.{ScheduleJobRequest, schedule_job}
use job_schedular_service.Services.Scheduling.{Scheduled, is_later, schedule_job-immediate}
use job_schedular_service.Services.Processor.{
  Handlers, process_job, process_next_job, after_dequeue,
}
use job_schedular_service.Services.Stages.{MemoryWorld}
use job_schedular_service.Services.Attempt.{Runs}
use job_schedular_service.Services.Course.{get-put_same}
use job_schedular_service.Services.Lifecycle.{process_job-Completes}

dequeue_from-front :
    (p : Priority) (ps : List Priority) (m : MemoryQueue) (id : Uuid) (rest : List Uuid)
    (q : JobRef)
    → queued m.queues p ≡ id ∷ rest
    → get m.job_storage id ≡ some q
    → dequeue_from (p ∷ ps) m ≡ (some q, none, record m { queues = put m.queues p rest })
unfolding dequeue_from
dequeue_from-front p ps m id rest q h k = rw (h, dequeue_from) (rw k)

module _ (jobs_order : Map Uuid JobRef → Map Uuid JobRef)
    (workers_order : Map String Worker → Map String Worker)
    (delayed_order : Map Uuid Time → Map Uuid Time) where
  abbrev storage_port : StoragePort MemoryStorage
  storage_port = memory_storage jobs_order workers_order

  abbrev queue_port : QueuePort MemoryQueue
  queue_port = memory_queue delayed_order

  -- ProcessNextJob, when a lane that is asked for first is not empty.
  process_next_job-front :
      (handlers : Handlers) (worker_id : String) (p : Priority) (ps : List Priority)
      (w : MemoryWorld) (id : Uuid) (rest : List Uuid) (q : JobRef)
      → queued w.queue.queues p ≡ id ∷ rest
      → get w.queue.job_storage id ≡ some q
      → process_next_job storage_port queue_port handlers worker_id (p ∷ ps) w
        ≡ process_job storage_port queue_port handlers q worker_id
            (record w { queue = record w.queue { queues = put w.queue.queues p rest } })
  unfolding process_next_job after_dequeue dequeue
  process_next_job-front handlers worker_id p ps w id rest q h k =
      ap resume (dequeue_from-front p ps w.queue id rest q h k)
    where
      resume : Option JobRef × Option Error × MemoryQueue → Option Error × MemoryWorld
      resume (job, err, m) =
          after_dequeue storage_port queue_port handlers worker_id job err (record w { queue = m })

  module _ (req : ScheduleJobRequest) (w : MemoryWorld) (handlers : Handlers) (worker_id : String)
      (ps : List Priority) where
    abbrev lane : Priority
    lane = if int_eqb req.priority (pos 0) then priority_medium else req.priority

    abbrev accepted : MemoryWorld
    accepted = (schedule_job storage_port queue_port req w).1

    -- After that, with the job taken off its lane.
    abbrev taken : MemoryWorld
    taken = record accepted {
      queue = record accepted.queue { queues = put accepted.queue.queues lane [] };
    }

    -- With the memory adapters: after ScheduleJob of a request without a later time, whose lane was
    -- empty and whose handler succeeds for the new job and leaves it as it found it, a call of
    -- ProcessNextJob that asks for this lane first, and for whichever after it, returns no error,
    -- and leaves the new job completed and stored under its id, and its lane empty.
    pub schedule_job-process_next_job :
        is_later w.runtime req.schedule_at ≡ false
        → queued w.queue.queues lane ≡ []
        → Runs handlers w.runtime.next req.job_type req.payload none
        → let (result, after) =
            process_next_job storage_port queue_port handlers worker_id (lane ∷ ps) accepted in
          (result ≡ none)
          × ((after.runtime.cells w.runtime.next).status ≡ status_completed)
          × (queued after.queue.queues lane ≡ [])
          × (get after.storage.jobs (w.runtime.ids w.runtime.minted) ≡ some w.runtime.next)
    schedule_job-process_next_job soon empty runs =
        let (job, s, pending, queue) =
          schedule_job-immediate jobs_order workers_order delayed_order req w soon in
        served job s queue empty runs
      where
        served :
            (job : Job)
            → Scheduled req w (schedule_job storage_port queue_port req w) job
            → accepted.queue ≡ record w.queue {
              job_storage = put w.queue.job_storage job.id w.runtime.next;
              queues =
                  put w.queue.queues job.priority
                    (queued w.queue.queues job.priority ++ job.id ∷ []);
            }
            → queued w.queue.queues lane ≡ []
            → Runs handlers w.runtime.next req.job_type req.payload none
            → let (result, after) =
                process_next_job storage_port queue_port handlers worker_id (lane ∷ ps) accepted in
              (result ≡ none)
              × ((after.runtime.cells w.runtime.next).status ≡ status_completed)
              × (queued after.queue.queues lane ≡ [])
              × (get after.storage.jobs (w.runtime.ids w.runtime.minted) ≡ some w.runtime.next)
        served job s queue empty runs =
            let front : queued accepted.queue.queues lane ≡ job.id ∷ [] =
              ap (λ (m : MemoryQueue). queued m.queues lane) queue
              ∙ rw (s.priority, empty)
                  (queued-put w.queue.queues lane lane (job.id ∷ []) ∙ rw (eqb_refl lane)) in
            let known : get accepted.queue.job_storage job.id ≡ some w.runtime.next =
              ap (λ (m : MemoryQueue). get m.job_storage job.id) queue
              ∙ get-put_same w.queue.job_storage job.id w.runtime.next in
            let saved : get taken.storage.jobs (taken.runtime.cells w.runtime.next).id
                ≡ some w.runtime.next =
              rw (s.cell, s.storage) (get-put_same w.storage.jobs job.id w.runtime.next) in
            let done =
              process_job-Completes jobs_order workers_order delayed_order handlers w.runtime.next
                worker_id taken w.runtime.next saved (rw (s.cell, s.job_type, s.payload) runs) in
            rw
              (process_next_job-front handlers worker_id lane ps accepted job.id [] w.runtime.next
                front known)
              (
                done.0,
                done.1.status,
                ap (λ (m : MemoryQueue). queued m.queues lane) done.1.queue
                    ∙ (queued-put accepted.queue.queues lane lane [] ∙ rw (eqb_refl lane)),
                ap
                      (λ (i : Uuid).
                        get
                          (process_job storage_port queue_port handlers w.runtime.next worker_id
                            taken).1.storage.jobs
                          i)
                      (sym (ap (λ (j : Job). j.id) s.cell ∙ s.id))
                    ∙ done.1.recorded.is_saved,
              )
