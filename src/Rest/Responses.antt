-- ===== src/Rest/Responses.antt =====
-- What internal/adapters/primary/rest_api/handler.go answers, with the memory adapters.
use job_schedular_service.Base.{
  ◌≡◌, refl, ap, ◌∙◌, String, Option, none, some, inl, inr, Option-cases, Bool-cases,
}
use job_schedular_service.Base.Map.{Map, get, put, nat_key}
use job_schedular_service.Domain.Retry.{Time}
use job_schedular_service.Domain.Job.{Job, Uuid, Error}
use job_schedular_service.Runtime.{JobRef, Runtime}
use job_schedular_service.Ports.{Worker, StoragePort, QueuePort}
use job_schedular_service.Memory.Queue.{MemoryQueue}
use job_schedular_service.Memory.Storage
use job_schedular_service.Memory.Storage.{MemoryStorage, passes}
use job_schedular_service.Memory.Ports.{memory_storage, memory_queue}
use job_schedular_service.Services.Scheduler
use job_schedular_service.Services.Scheduler.{ScheduleJobRequest}
use job_schedular_service.Services.Course.{get-put_same}
use job_schedular_service.Services.Stages.{MemoryWorld}
use job_schedular_service.Services.Scheduling.{
  Scheduled, is_later, schedule_job-immediate, schedule_job-delayed,
}
use job_schedular_service.Rest.{
  Response, respond, failure, one_job, found, schedule_job, bound, scheduled, get_job,
}

module _ (jobs_order : Map Uuid JobRef → Map Uuid JobRef)
    (workers_order : Map String Worker → Map String Worker)
    (delayed_order : Map Uuid Time → Map Uuid Time) where
  abbrev storage_port : StoragePort MemoryStorage
  storage_port = memory_storage jobs_order workers_order

  abbrev queue_port : QueuePort MemoryQueue
  queue_port = memory_queue delayed_order

  -- The answer by the entry of the storage.
  abbrev pub found_job : Option JobRef → Response
  found_job (some p) = respond 200 (one_job (some p))
  found_job none = respond 404 (failure "job not found")

  abbrev looked_up : Option JobRef → Option JobRef × Option Error
  looked_up (some p) = (some p, none)
  looked_up none = (none, some "job not found")

  get_job-entry :
      (id : Uuid) (r : Runtime) (m : MemoryStorage)
      → Storage.get_job id (r, m) ≡ (looked_up (get m.jobs id), (r, m))
  unfolding Storage.get_job
  get_job-entry id r m = elim (Option-cases (get m.jobs id)) [
    | inl e ↦ rw (e, Storage.get_job)
    | inr (p, e) ↦ rw (e, Storage.get_job)
  ]

  found-looked_up : (o : Option JobRef) → found (looked_up o) ≡ found_job o
  found-looked_up none = refl
  found-looked_up (some p) = refl

  get_job-found :
      (id : Uuid) (w : MemoryWorld)
      → get_job storage_port queue_port (some id) w ≡ (found_job (get w.storage.jobs id), w)
  unfolding get_job Scheduler.get_job
  get_job-found id w =
      ap resume (get_job-entry id w.runtime w.storage)
      ∙ ap (λ (response : Response). (response, w)) (found-looked_up (get w.storage.jobs id))
    where
      resume : (Option JobRef × Option Error) × (Runtime × MemoryStorage) → Response × MemoryWorld
      resume c = (found c.0, record w { runtime = c.1.0; storage = c.1.1 })

  -- With the memory adapters, the REST handler GetJob answers 400 if the id is not a uuid, 404 if
  -- no job is stored under it, and else 200 with the stored job; it changes nothing.
  pub get_job_response :
      (parsed : Option Uuid) (w : MemoryWorld)
      → get_job storage_port queue_port parsed w ≡ (
        elim parsed [
          | none ↦ respond 400 (failure "invalid job ID")
          | some id ↦ found_job (get w.storage.jobs id)
        ],
        w,
      )
  unfolding get_job
  get_job_response none w = refl
  get_job_response (some id) w = get_job-found id w

  module _ (req : ScheduleJobRequest) (w : MemoryWorld) where
    abbrev call : (Option JobRef × Option Error) × MemoryWorld
    call = Scheduler.schedule_job storage_port queue_port req w

    accepted :
        (job : Job)
        → Scheduled req w call job
        → let (response, after) = schedule_job storage_port queue_port (bound req) w in
          (response ≡ respond 201 (one_job (some w.runtime.next)))
          × (get_job storage_port queue_port (some (w.runtime.ids w.runtime.minted)) after
              ≡ (respond 200 (one_job (some w.runtime.next)), after))
    unfolding schedule_job
    accepted job s = (
      ap scheduled s.returned,
      get_job-found (w.runtime.ids w.runtime.minted) call.1
          ∙ ap (λ o. (found_job o, call.1))
              (ap (λ (m : MemoryStorage). get m.jobs (w.runtime.ids w.runtime.minted)) s.storage
                ∙ ap
                    (λ id.
                      get (put w.storage.jobs id w.runtime.next) (w.runtime.ids w.runtime.minted))
                    s.id
                ∙ get-put_same w.storage.jobs (w.runtime.ids w.runtime.minted) w.runtime.next),
    )

    placed : (o : Option Time) → req.schedule_at ≡ o → (job : Job) × Scheduled req w call job
    placed none e =
        let (job, s, _, _) =
          schedule_job-immediate jobs_order workers_order delayed_order req w
            (ap (is_later w.runtime) e) in
        (job, s)
    placed (some at) e = elim (Bool-cases (is_later w.runtime (some at))) [
      | inl h ↦
          let (job, s, _, _) =
            schedule_job-delayed jobs_order workers_order delayed_order req w at e h in
          (job, s)
      | inr h ↦
          let (job, s, _, _) =
            schedule_job-immediate jobs_order workers_order delayed_order req w
              (ap (is_later w.runtime) e ∙ h) in
          (job, s)
    ]

    -- With the memory adapters, the REST handler answers a valid request for a job, whenever the
    -- job is to run, with 201 and the new job, and a request for the new id in the world after that
    -- with 200 and the same job.
    pub schedule_job-get_job :
        let (response, after) = schedule_job storage_port queue_port (bound req) w in
        (response ≡ respond 201 (one_job (some w.runtime.next)))
        × (get_job storage_port queue_port (some (w.runtime.ids w.runtime.minted)) after
            ≡ (respond 200 (one_job (some w.runtime.next)), after))
    schedule_job-get_job = let (job, s) = placed req.schedule_at refl in accepted job s
