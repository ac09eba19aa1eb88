-- ===== src/Services/Scheduling.antt =====
-- ScheduleJob of internal/core/services/schedular.go, with the memory adapters.
use job_schedular_service.Base.{
  suc, pos, ◌≡◌, refl, sym, ap, ◌∙◌, Bool, true, false, Option, none, some, [], ◌∷◌, ◌++◌, String,
  ltb_ℤ, int_eqb, if◌then◌else◌,
}
use job_schedular_service.Base.Map.{Map, put, nat_key, int_key}
use job_schedular_service.Config.{new_retry_policy}
use job_schedular_service.Domain.Priority.{priority_medium}
use job_schedular_service.Domain.Retry.{Time, RetryPolicy}
use job_schedular_service.Domain.Job.{Job, Uuid, Error, status_pending, status_scheduled}
use job_schedular_service.Runtime.{JobRef, Runtime, store_self, now, allocate, load}
use job_schedular_service.Ports.{Worker, StoragePort, QueuePort, jobs_scheduled}
use job_schedular_service.Memory.Queue.{MemoryQueue, queued, enqueue, enqueue_delayed}
use job_schedular_service.Memory.Storage.{MemoryStorage, save_job}
use job_schedular_service.Memory.Ports.{memory_storage, memory_queue}
use job_schedular_service.Services.Scheduler.{
  ScheduleJobRequest, submit, after_save, after_enqueue, new_job, schedule_job, default_policy,
  default_priority, delay, enqueue_job, report_scheduled,
}
use job_schedular_service.Services.Stages.{MemoryWorld, delayed_until}

-- req.ScheduleAt != nil && req.ScheduleAt.After(time.Now())
abbrev pub is_later : Runtime → Option Time → Bool
is_later r none = false
is_later r (some at) = ltb_ℤ (r.clock (suc (suc (suc r.reads)))) at

-- What ScheduleJob makes of a request, whichever way the job goes.
pub record Scheduled (req : ScheduleJobRequest) (before : MemoryWorld)
    (call : (Option JobRef × Option Error) × MemoryWorld) (job : Job) : Type 0 where
  pub id : job.id ≡ before.runtime.ids before.runtime.minted
  pub job_type : job.job_type ≡ req.job_type
  pub payload : job.payload ≡ req.payload
  pub metadata : job.metadata ≡ req.metadata
  pub priority :
      job.priority ≡ (if int_eqb req.priority (pos 0) then priority_medium else req.priority)
  pub policy :
      job.retry_policy
      ≡ elim req.retry_policy [ none ↦ new_retry_policy before.runtime.environment | some rp ↦ rp ]
  pub returned : call.0 ≡ (some before.runtime.next, none)
  pub cell : call.1.runtime.cells before.runtime.next ≡ job
  pub storage :
      call.1.storage
      ≡ record before.storage { jobs = put before.storage.jobs job.id before.runtime.next }
  pub metrics : call.1.metrics ≡ before.metrics ++ jobs_scheduled job.job_type job.priority ∷ []

module _ (jobs_order : Map Uuid JobRef → Map Uuid JobRef)
    (workers_order : Map String Worker → Map String Worker)
    (delayed_order : Map Uuid Time → Map Uuid Time) (req : ScheduleJobRequest)
    (w : MemoryWorld) where
  abbrev storage_port : StoragePort MemoryStorage
  storage_port = memory_storage jobs_order workers_order

  abbrev queue_port : QueuePort MemoryQueue
  queue_port = memory_queue delayed_order

  -- What new_job made of the request.
  abbrev made : Job × Runtime
  made = new_job req w.runtime

  -- The job before the delay is handled, and the runtime after three readings of the clock.
  abbrev base : Job
  base = record {
    id = w.runtime.ids w.runtime.minted;
    job_type = req.job_type;
    priority = default_priority req.priority;
    payload = req.payload;
    metadata = req.metadata;
    status = status_pending;
    retry_policy = default_policy w.runtime.environment req.retry_policy;
    created_at = w.runtime.clock w.runtime.reads;
    updated_at = w.runtime.clock (suc w.runtime.reads);
    scheduled_at = w.runtime.clock (suc (suc w.runtime.reads));
    processed_at = none;
    completed_at = none;
    failed_at = none;
    last_error = "";
    worker_id = "";
  }

  abbrev prepared : Runtime
  prepared = record w.runtime {
    reads = suc (suc (suc w.runtime.reads));
    minted = suc w.runtime.minted;
  }

  new_job-delay : made ≡ delay req.schedule_at base prepared
  unfolding new_job default_priority default_policy
  new_job-delay = refl

  delay-next : (o : Option Time) (job : Job) (r : Runtime) → (delay o job r).1.next ≡ r.next
  unfolding delay
  delay-next none job r = refl
  delay-next (some at) job r = refl

  delay-pending :
      (o : Option Time) → is_later w.runtime o ≡ false → (delay o base prepared).0 ≡ base
  unfolding delay now
  delay-pending none h = refl
  delay-pending (some at) h = rw (h, delay)

  delay-later :
      (at : Time)
      → is_later w.runtime (some at) ≡ true
      → (delay (some at) base prepared).0
        ≡ record base { status = status_scheduled; scheduled_at = at }
  unfolding delay now
  delay-later at h = rw (h, delay)

  policy_is :
      (o : Option RetryPolicy)
      → default_policy w.runtime.environment o
        ≡ elim o [ none ↦ new_retry_policy w.runtime.environment | some rp ↦ rp ]
  unfolding default_policy
  policy_is none = refl
  policy_is (some rp) = refl

  abbrev call : (Option JobRef × Option Error) × MemoryWorld
  call = schedule_job storage_port queue_port req w

  next_is : made.1.next ≡ w.runtime.next
  next_is =
      ap (λ (m : Job × Runtime). m.1.next) new_job-delay ∙ delay-next req.schedule_at base prepared

  module _ (p : JobRef) (v : MemoryWorld) where
    -- What the two ways have in common.
    record Submitted (lanes : MemoryQueue) (result : (Option JobRef × Option Error) × MemoryWorld)
        : Type 0 where
      pub returned : result.0 ≡ (some p, none)
      pub cells : result.1.runtime ≡ v.runtime
      pub storage :
          result.1.storage ≡ record v.storage { jobs = put v.storage.jobs (v.runtime.cells p).id p }
      pub metrics :
          result.1.metrics
          ≡ v.metrics
            ++ jobs_scheduled (v.runtime.cells p).job_type (v.runtime.cells p).priority ∷ []
      pub queue : result.1.queue ≡ lanes

    submit-pending :
        (v.runtime.cells p).status ≡ status_pending
        → Submitted (enqueue p (v.runtime, v.queue)).1.1 (submit storage_port queue_port p v)
    unfolding submit after_save after_enqueue save_job enqueue_job load report_scheduled enqueue
    submit-pending h =
        rw (h, submit, enqueue_job)
          (record { returned = refl; cells = refl; storage = refl; metrics = refl; queue = refl })

    submit-later :
        (v.runtime.cells p).status ≡ status_scheduled
        → Submitted
            (delayed_until (v.runtime.cells p).scheduled_at p (v.runtime.cells p) v.queue)
            (submit storage_port queue_port p v)
    unfolding submit after_save after_enqueue save_job enqueue_job load report_scheduled
        enqueue_delayed
    submit-later h =
        rw (h, submit, enqueue_job)
          (record { returned = refl; cells = refl; storage = refl; metrics = refl; queue = refl })

  -- The world in which ScheduleJob persists the job.
  abbrev allocated : MemoryWorld
  allocated = record w { runtime = (allocate made.0 made.1).1 }

  cell_is : allocated.runtime.cells made.1.next ≡ made.0
  unfolding allocate
  cell_is = store_self _ made.1.next _

  scheduled :
      (made_job : Job) (lanes : MemoryQueue)
      → made.0 ≡ made_job
      → made_job.id ≡ base.id
      → made_job.job_type ≡ base.job_type
      → made_job.payload ≡ base.payload
      → made_job.metadata ≡ base.metadata
      → made_job.priority ≡ base.priority
      → made_job.retry_policy ≡ base.retry_policy
      → Submitted made.1.next allocated lanes call
      → Scheduled req w call made_job
  unfolding allocate default_priority
  scheduled j lanes e id job_type payload metadata priority policy s = record {
    id = id;
    job_type = job_type;
    payload = payload;
    metadata = metadata;
    priority = priority;
    policy = policy ∙ policy_is req.retry_policy;
    returned = s.returned ∙ ap (λ (p : JobRef). (some p, none)) next_is;
    cell =
        ap (λ q. call.1.runtime.cells q) (sym next_is)
        ∙ ap (λ (r : Runtime). r.cells made.1.next) s.cells
        ∙ cell_is
        ∙ e;
    storage = s.storage ∙ cc (cell_is, e, next_is);
    metrics = s.metrics ∙ cc (cell_is, e);
  }

  -- ScheduleJob, with the memory adapters, of a request without a later time returns a new pending
  -- job made from the request, saves it, counts it, and puts its id at the end of the lane of its
  -- priority.
  pub schedule_job-immediate :
      is_later w.runtime req.schedule_at ≡ false
      → (job : Job) × Scheduled req w call job
        × (job.status ≡ status_pending)
        × (call.1.queue ≡ record w.queue {
          job_storage = put w.queue.job_storage job.id w.runtime.next;
          queues =
              put w.queue.queues job.priority (queued w.queue.queues job.priority ++ job.id ∷ []);
        })
  unfolding schedule_job enqueue
  schedule_job-immediate h =
      let e : made.0 ≡ base =
        ap (λ (m : Job × Runtime). m.0) new_job-delay ∙ delay-pending req.schedule_at h in
      let s = submit-pending made.1.next allocated (ap (λ (j : Job). j.status) (cell_is ∙ e)) in
      (
        base,
        scheduled base _ e refl refl refl refl refl refl s,
        refl,
        s.queue ∙ cc (cell_is, e, next_is),
      )

  -- ScheduleJob, with the memory adapters, of a request for a later time returns a new scheduled
  -- job made from the request, saves it, counts it, and lets it wait until that time while no lane
  -- changes.
  pub schedule_job-delayed :
      (at : Time)
      → req.schedule_at ≡ some at
      → is_later w.runtime (some at) ≡ true
      → (job : Job) × Scheduled req w call job
        × (job.status ≡ status_scheduled)
        × (call.1.queue ≡ delayed_until at w.runtime.next job w.queue)
  unfolding schedule_job
  schedule_job-delayed at has h =
      let later : Job = record base { status = status_scheduled; scheduled_at = at } in
      let e : made.0 ≡ later =
        ap (λ (m : Job × Runtime). m.0) new_job-delay
        ∙ ap (λ o. (delay o base prepared).0) has
        ∙ delay-later at h in
      let s = submit-later made.1.next allocated (ap (λ (j : Job). j.status) (cell_is ∙ e)) in
      (
        later,
        scheduled later _ e refl refl refl refl refl refl s,
        refl,
        s.queue ∙ cc (cell_is, e, next_is),
      )
