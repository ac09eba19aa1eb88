-- ===== src/Pipeline/Scheduling.antt =====
-- ScheduleJob of internal/core/services/schedular.go on a memory queue, as steps of the pipeline.
use job_schedular_service.Base.{
  ◌<◌, ◌≡◌, refl, ap, ◌∙◌, none, some, List, ◌∷◌, Option, Bool, true, false, ◌⊎◌, ◌≢◌, inl, inr,
  arith, ltb_ℤ, Bool-cases, subst, nat_eqb_iff,
}
use job_schedular_service.Base.Map.{Map, ◌==◌, string_key}
use job_schedular_service.Domain.Retry.{Time}
use job_schedular_service.Domain.Job.{Job, Uuid, Error, status_scheduled}
use job_schedular_service.Runtime.{
  JobRef, Runtime, now, new_uuid, allocate, load, write, store_self, cells-write,
}
use job_schedular_service.Ports.{StoragePort, QueuePort}
use job_schedular_service.Memory.Queue.{MemoryQueue, enqueue, enqueue_delayed}
use job_schedular_service.Memory.Ports.{memory_queue}
use job_schedular_service.Services.World.{World, on_storage}
use job_schedular_service.Services.Scheduler.{
  ScheduleJobRequest, delay, new_job, dispatch, enqueue_job, report_scheduled, after_enqueue,
  after_save, submit, schedule_job,
}
use job_schedular_service.Pipeline.{
  Held, Reachable, later, schedules, schedules_later, others, count,
}
use job_schedular_service.Pipeline.Moves.{Keeps, snapshot}

-- A new job has the next id, and the jobs that were made stay what they were.
delay-keeps :
    (at : Option Time) (job : Job) (r : Runtime)
    → ((delay at job r).0.id ≡ job.id)
      × ((delay at job r).1.next ≡ r.next)
      × ((delay at job r).1.cells ≡ r.cells)
unfolding delay now
delay-keeps none job r = (refl, refl, refl)
delay-keeps (some at) job r = elim (Bool-cases (ltb_ℤ (r.clock r.reads) at)) [
  | inl e ↦ rw e (refl, refl, refl)
  | inr e ↦ rw e (refl, refl, refl)
]

new_job-keeps :
    (req : ScheduleJobRequest) (r : Runtime)
    → ((new_job req r).0.id ≡ r.ids r.minted)
      × ((new_job req r).1.next ≡ r.next)
      × ((new_job req r).1.cells ≡ r.cells)
unfolding new_job new_uuid now
new_job-keeps req r = delay-keeps req.schedule_at _ _

allocate-Keeps :
    (job : Job) (r : Runtime)
    → Keeps r (allocate job r).1
      × (r.next < (allocate job r).1.next)
      × ((allocate job r).1.cells r.next ≡ job)
unfolding allocate write
allocate-Keeps job r = (
  record {
    made = omega arith;
    ids = λ q lt. ground (arith, cells-write r.next q job r, nat_eqb_iff r.next q);
  },
  omega arith,
  store_self r.cells r.next job,
)

Keeps-allocate :
    (job : Job) (r r' : Runtime)
    → r'.next ≡ r.next
    → r'.cells ≡ r.cells
    → Keeps r (allocate job r').1
Keeps-allocate job r r' n c =
    let k = (allocate-Keeps job r').0 in
    record {
      made = let a = k.made in omega (arith, a, n);
      ids = λ q lt. k.ids q (omega (arith, n, lt)) ∙ ap (λ (cells : JobRef → Job). (cells q).id) c;
    }

module _ {T : Type 0} (storage : StoragePort T) (order : Map Uuid Time → Map Uuid Time)
    (hs : List Held) (completed scheduled : List Uuid) where
  abbrev queue : QueuePort MemoryQueue
  queue = memory_queue order

  -- The job at `p` was made, and no job was scheduled under its id.
  abbrev IsNew : JobRef → Runtime → Type 0
  IsNew p r = (p < r.next) × (count (r.cells p).id scheduled ≡ 0)

  dispatch-Reachable :
      (b : Bool) (p : JobRef) (w : World T MemoryQueue)
      → IsNew p w.runtime
      → Reachable (snapshot w hs completed scheduled)
      → let job = w.runtime.cells p in
        let (err, w') = dispatch storage queue b job p w in
        (err ≡ none) × Reachable (snapshot w' hs completed (job.id ∷ scheduled))
  unfolding enqueue enqueue_delayed
  dispatch-Reachable true p w h r =
      (refl, later r (schedules_later p (w.runtime.cells p).scheduled_at h.0 h.1))
  dispatch-Reachable false p w h r = (refl, later r (schedules p h.0 h.1))

  after_enqueue-Reachable :
      (p : JobRef) (id : Uuid) (enqueued : Option Error) (w : World T MemoryQueue)
      → enqueued ≡ none
      → Reachable (snapshot w hs completed (id ∷ scheduled))
      → let (result, w') = after_enqueue storage queue p enqueued w in
        (result.0 ≡ some p)
        × (result.1 ≡ none)
        × Reachable (snapshot w' hs completed (id ∷ scheduled))
  unfolding after_enqueue report_scheduled load
  after_enqueue-Reachable p id none w e r = (refl, refl, r)
  after_enqueue-Reachable p id (some err) w e r = absurd (ground (arith, e))

  -- Either the call succeeds and the id is scheduled, or it reports an error and nothing is.
  abbrev Outcome : JobRef → Uuid → (Option JobRef × Option Error) × World T MemoryQueue → Type 0
  Outcome p id ((job, err), w') =
      ((job ≡ some p) × (err ≡ none) × Reachable (snapshot w' hs completed (id ∷ scheduled)))
      ⊎ ((job ≡ none) × (err ≢ none) × Reachable (snapshot w' hs completed scheduled))

  after_save-Outcome :
      (p : JobRef) (saved : Option Error) (w : World T MemoryQueue)
      → IsNew p w.runtime
      → Reachable (snapshot w hs completed scheduled)
      → Outcome p (w.runtime.cells p).id (after_save storage queue p saved w)
  unfolding after_save enqueue_job load
  after_save-Outcome p none w h r =
      let job = w.runtime.cells p in
      let (err, w') = dispatch storage queue (job.status == status_scheduled) job p w in
      let done = dispatch-Reachable (job.status == status_scheduled) p w h r in
      inl (after_enqueue-Reachable p job.id err w' done.0 done.1)
  after_save-Outcome p (some err) w h r = inr (refl, (λ e. ground (arith, e)), r)

  submit-Outcome :
      (p : JobRef) (w : World T MemoryQueue)
      → ((s : Runtime × T) → Keeps s.0 (storage.save_job p s).1.0)
      → IsNew p w.runtime
      → Reachable (snapshot w hs completed scheduled)
      → Outcome p (w.runtime.cells p).id (submit storage queue p w)
  unfolding submit
  submit-Outcome p w ok h r =
      let (saved, w') = on_storage (storage.save_job p) w in
      let keeps = ok (w.runtime, w.storage) in
      let same = keeps.ids p h.0 in
      subst (λ id. Outcome p id (submit storage queue p w)) same
        (after_save-Outcome p saved w'
          (let a = keeps.made in let b = h.0 in omega arith, rw same h.1)
          (later r (others w'.runtime keeps.made keeps.ids)))

  -- With a memory queue in a state that the pipeline reaches, a storage whose SaveJob changes no
  -- job's id, and a new id that no scheduled job has: ScheduleJob either returns the new job and no
  -- error, and leads to a state that the pipeline reaches with the new id scheduled, or it returns
  -- no job and an error, and leads to one with the same ids scheduled.
  pub schedule_job-Reachable :
      (req : ScheduleJobRequest) (w : World T MemoryQueue)
      → ((p : JobRef) (s : Runtime × T) → Keeps s.0 (storage.save_job p s).1.0)
      → count (w.runtime.ids w.runtime.minted) scheduled ≡ 0
      → Reachable (snapshot w hs completed scheduled)
      → let ((job, err), w') = schedule_job storage queue req w in
        let id = w.runtime.ids w.runtime.minted in
        ((job ≡ some w.runtime.next)
          × (err ≡ none)
          × Reachable (snapshot w' hs completed (id ∷ scheduled)))
        ⊎ ((job ≡ none) × (err ≢ none) × Reachable (snapshot w' hs completed scheduled))
  unfolding schedule_job
  schedule_job-Reachable req w ok z r =
      let (job, r₁) = new_job req w.runtime in
      let made = new_job-keeps req w.runtime in
      let new = allocate-Keeps job r₁ in
      let p = r₁.next in
      let w₂ = record w { runtime = (allocate job r₁).1 } in
      let keeps = Keeps-allocate job w.runtime r₁ made.1 made.2 in
      let r₂ = later r (others w₂.runtime keeps.made keeps.ids) in
      let id_of_new : (w₂.runtime.cells p).id ≡ w.runtime.ids w.runtime.minted =
        ap (λ (j : Job). j.id) new.2 ∙ made.0 in
      subst (λ q. Outcome q (w.runtime.ids w.runtime.minted) (submit storage queue p w₂)) made.1
        (subst (λ id. Outcome p id (submit storage queue p w₂)) id_of_new
          (submit-Outcome p w₂ (ok p) (new.1, rw id_of_new z) r₂))
