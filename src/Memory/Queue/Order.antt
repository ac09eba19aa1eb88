-- ===== src/Memory/Queue/Order.antt =====
-- Which job Dequeue of internal/adapters/secondary/queue/memory.go hands out.
use job_schedular_service.Base.{
  ◌≡◌, refl, ap, Option, none, some, List, [], ◌∷◌, ◌++◌, All, inl, inr, ◌⊎◌, List-cases,
}
use job_schedular_service.Base.Map.{get, put, nat_key, int_key}
use job_schedular_service.Domain.Priority.{Priority}
use job_schedular_service.Domain.Job.{Uuid, Error}
use job_schedular_service.Runtime.{JobRef, Runtime}
use job_schedular_service.Memory.Queue.{MemoryQueue, queued, dequeue_from, dequeue}
use job_schedular_service.Memory.Queue.Invariant.{IsWellFormed, known_ref, pop-IsWellFormed}

-- The first lane that is not empty, in the order of the priorities asked for.
pub record Found (m : MemoryQueue) (priorities : List Priority) : Type 0 where
  pub before : List Priority
  pub priority : Priority
  pub after : List Priority
  pub job_id : Uuid
  pub rest : List Uuid
  pub job : JobRef
  pub asked : priorities ≡ before ++ priority ∷ after
  pub skipped : All (λ p. queued m.queues p ≡ []) before
  pub first : queued m.queues priority ≡ job_id ∷ rest
  pub known : get m.job_storage job_id ≡ some job

abbrev pub Served :
    MemoryQueue → List Priority → Option JobRef × Option Error × MemoryQueue → Type 0
Served m priorities result =
    (All (λ p. queued m.queues p ≡ []) priorities × (result ≡ (none, some "no jobs available", m)))
    ⊎ ((f : Found m priorities) × (result
          ≡ (some f.job, none, record m { queues = put m.queues f.priority f.rest })))

Served-skip :
    (m : MemoryQueue) (p : Priority) (ps : List Priority)
    (result : Option JobRef × Option Error × MemoryQueue)
    → queued m.queues p ≡ []
    → Served m ps result
    → Served m (p ∷ ps) result
Served-skip m p ps result e (inl (all, r)) = inl ((e, all), r)
Served-skip m p ps result e (inr (f, r)) = inr (
  record {
    before = p ∷ f.before;
    priority = f.priority;
    after = f.after;
    job_id = f.job_id;
    rest = f.rest;
    job = f.job;
    asked = ap (◌∷◌ p) f.asked;
    skipped = (e, f.skipped);
    first = f.first;
    known = f.known;
  },
  r,
)

-- Either every lane that was asked for is empty and nothing changes, or the job comes from the
-- front of the first lane that is not, and that lane loses its front.
pub dequeue_from-Served :
    (r : Runtime) (m : MemoryQueue) (ps : List Priority)
    → IsWellFormed r m
    → Served m ps (dequeue_from ps m)
unfolding dequeue_from
dequeue_from-Served r m [] h = inl (tt, refl)
dequeue_from-Served r m (p ∷ ps) h = elim (List-cases (queued m.queues p)) [
  | inl e ↦ Served-skip m p ps _ e (rw (e, dequeue_from) (dequeue_from-Served r m ps h))
  | inr (job_id, rest, e) ↦
      let (job, k) = known_ref r m p job_id rest h e in
      inr (
        record {
          before = [];
          priority = p;
          after = ps;
          job_id = job_id;
          rest = rest;
          job = job;
          asked = refl;
          skipped = tt;
          first = e;
          known = k;
        },
        rw (e, dequeue_from) (rw (k, dequeue_from)),
      )
]

-- Dequeue on a well-formed queue changes no job, and either all the lanes asked for are empty, it
-- reports that and nothing changes, or it returns the job at the front of the first lane that is
-- not empty, and only that lane changes, by losing its front.
pub dequeue-Served :
    (r : Runtime) (m : MemoryQueue) (ps : List Priority)
    → IsWellFormed r m
    → let ((job, err), s) = dequeue ps (r, m) in (s.0 ≡ r) × Served m ps (job, err, s.1)
unfolding dequeue
dequeue-Served r m ps h = (refl, dequeue_from-Served r m ps h)

-- Dequeue keeps the queue well formed.
pub dequeue-IsWellFormed :
    (r : Runtime) (m : MemoryQueue) (ps : List Priority)
    → IsWellFormed r m
    → IsWellFormed r (dequeue ps (r, m)).1.1
unfolding dequeue
dequeue-IsWellFormed r m ps h = elim (dequeue_from-Served r m ps h) [
  | inl (e, f) ↦ rw f h
  | inr (f, e) ↦ rw e (pop-IsWellFormed r m f.priority f.job_id f.rest h f.first)
]
