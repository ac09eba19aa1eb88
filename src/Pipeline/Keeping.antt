-- ===== src/Pipeline/Keeping.antt =====
-- The parts of internal/core/services/processor.go that work on the jobs alone change no job's id.
use job_schedular_service.Base.{ℕ, suc, ◌≡◌, refl, some, String, Option-cases, inl, inr, arith}
use job_schedular_service.Base.Map.{get, string_key}
use job_schedular_service.Domain.Job.{
  JobType, Job, Error, mark_as_processing, mark_as_completed, mark_as_failed, mark_as_dead,
}
use job_schedular_service.Runtime.{JobRef, Runtime, now, update}
use job_schedular_service.Services.Processor.{
  JobHandler, Handlers, execute_job, next_retry, start_job, complete_job, fail_job, kill_job,
}
use job_schedular_service.Pipeline.Moves.{Keeps, Keeps-refl, IsKeeping, update-IsKeeping}

-- The clock is read `n` times.
abbrev pub ticked : ℕ → Runtime → Runtime
ticked n r = record r { reads = n }

pub update-ticked :
    (n : ℕ) (p : JobRef) (f : Job → Job) (r : Runtime)
    → ((job : Job) → (f job).id ≡ job.id)
    → Keeps r (update p f (ticked n r)).1
update-ticked n p f r same =
    let k = update-IsKeeping p f same (ticked n r) in record { made = k.made; ids = k.ids }

pub start_job-IsKeeping : (worker_id : String) (p : JobRef) → IsKeeping (start_job worker_id p)
unfolding start_job mark_as_processing now
start_job-IsKeeping worker_id p r =
    update-ticked (suc (suc r.reads)) p
      (mark_as_processing worker_id (r.clock r.reads) (r.clock (suc r.reads))) r (λ job. refl)

pub complete_job-IsKeeping : (p : JobRef) → IsKeeping (complete_job p)
unfolding complete_job mark_as_completed now
complete_job-IsKeeping p r =
    update-ticked (suc (suc r.reads)) p
      (mark_as_completed (r.clock r.reads) (r.clock (suc r.reads))) r (λ job. refl)

pub fail_job-IsKeeping : (err : Error) (p : JobRef) → IsKeeping (fail_job err p)
unfolding fail_job mark_as_failed now
fail_job-IsKeeping err p r =
    update-ticked (suc (suc (suc r.reads))) p
      (mark_as_failed err (r.clock r.reads) (r.clock (suc r.reads)) (r.clock (suc (suc r.reads)))) r
      (λ job. refl)

pub kill_job-IsKeeping : (p : JobRef) → IsKeeping (kill_job p)
unfolding kill_job mark_as_dead now
kill_job-IsKeeping p r =
    update-ticked (suc r.reads) p (mark_as_dead (r.clock r.reads)) r (λ job. refl)

pub next_retry-IsKeeping : (p : JobRef) → IsKeeping (next_retry p)
unfolding next_retry
next_retry-IsKeeping p r = record { made = omega arith; ids = λ q lt. refl }

-- The registered handlers change no job's id.
abbrev pub AreKeeping : Handlers → Type 0
AreKeeping handlers =
    (job_type : JobType) (h : JobHandler)
    → get handlers job_type ≡ some h
    → (p : JobRef) → IsKeeping (h.handle p)

pub execute_job-IsKeeping :
    (handlers : Handlers) (p : JobRef) → AreKeeping handlers → IsKeeping (execute_job handlers p)
unfolding execute_job
execute_job-IsKeeping handlers p keeping r =
    elim (Option-cases (get handlers (r.cells p).job_type)) [
      | inl e ↦ rw (e, execute_job) (Keeps-refl r)
      | inr (h, e) ↦ rw (e, execute_job) (keeping (r.cells p).job_type h e p r)
    ]
