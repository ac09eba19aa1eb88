-- ===== src/Memory/Queue/Invariant.antt =====
-- What holds of the memory queue (internal/adapters/secondary/queue/memory.go) between two calls.
use job_schedular_service.Base.{
  ◌≡◌, subst, Option-cases, true, some, List, [], ◌∷◌, arith, All, All-append, All-mono,
  if◌then◌else◌, int_eqb, nat_eqb_iff, Bool-cases, inl, inr,
}
use job_schedular_service.Base.Map.{
  Map, get, put, contains, get-put, get-delete, IsMap, put-IsMap, delete-IsMap, eqb_refl, nat_key,
  int_key,
}
use job_schedular_service.Domain.Priority.{Priority}
use job_schedular_service.Domain.Retry.{Time}
use job_schedular_service.Domain.Job.{Uuid, status_pending}
use job_schedular_service.Runtime.{JobRef, Runtime, cells-write, now}
use job_schedular_service.Memory.Queue.{
  MemoryQueue, queued, enqueue, enqueue_delayed, move_to_dead_letter, activate, activate_all,
  process_delayed_jobs, ready_jobs,
}

abbrev pub IsKnown : Map Uuid JobRef → Uuid → Type 0
IsKnown js id = contains js id ≡ true

-- A job that waits, in a lane or for its time, is known to the queue, under its own id.
pub record IsWellFormed (r : Runtime) (m : MemoryQueue) : Type 0 where
  pub lanes : IsMap m.queues
  pub delays : IsMap m.delayed_jobs
  pub waiting : (p : Priority) → All (IsKnown m.job_storage) (queued m.queues p)
  pub delayed : (id : Uuid) → contains m.delayed_jobs id ≡ true → IsKnown m.job_storage id
  pub keyed : (id : Uuid) (p : JobRef) → get m.job_storage id ≡ some p → (r.cells p).id ≡ id

pub queued-put :
    (queues : Map Priority (List Uuid)) (p q : Priority) (ids : List Uuid)
    → queued (put queues p ids) q ≡ (if int_eqb p q then ids else queued queues q)
unfolding queued
queued-put queues p q ids = ground (arith, get-put queues p q ids)

-- Lanes stay known when one of them grows at its end by a known job.
waiting-put :
    (js : Map Uuid JobRef) (queues : Map Priority (List Uuid)) (p q : Priority) (ids : List Uuid)
    → All (IsKnown js) ids
    → All (IsKnown js) (queued queues q)
    → All (IsKnown js) (queued (put queues p ids) q)
waiting-put js queues p q ids h k =
    rw queued-put (elim (Bool-cases (int_eqb p q)) [ inl e ↦ rw e h | inr e ↦ rw e k ])

contains-put :
    (js : Map Uuid JobRef) (k : Uuid) (p : JobRef) (j : Uuid)
    → IsKnown js j
    → IsKnown (put js k p) j
contains-put js k p j h = ground (arith, get-put js k j p)

contains-put_self : (js : Map Uuid JobRef) (k : Uuid) (p : JobRef) → IsKnown (put js k p) k
contains-put_self js k p = ground (arith, get-put js k k p, eqb_refl k)

-- Enqueue keeps the queue well formed.
pub enqueue-IsWellFormed :
    (p : JobRef) (r : Runtime) (m : MemoryQueue)
    → IsWellFormed r m
    → IsWellFormed r (enqueue p (r, m)).1.1
unfolding enqueue
enqueue-IsWellFormed p r m h =
    let job = r.cells p in
    record {
      lanes = put-IsMap m.queues job.priority _ h.lanes;
      delays = h.delays;
      waiting = λ q.
          let js = put m.job_storage job.id p in
          let still = λ (q' : Priority).
            All-mono (IsKnown m.job_storage) (IsKnown js) (queued m.queues q')
              (contains-put m.job_storage job.id p) (h.waiting q') in
          waiting-put js m.queues job.priority q _
            (All-append (IsKnown js) (queued m.queues job.priority) _ (still job.priority)
              (contains-put_self m.job_storage job.id p, tt))
            (still q);
      delayed = λ id d. contains-put m.job_storage job.id p id (h.delayed id d);
      keyed = λ id q e.
          ground (arith, get-put m.job_storage job.id id p, h.keyed id q, nat_eqb_iff job.id id);
    }

-- The id at the front of a lane has a job.
pub known_ref :
    (r : Runtime) (m : MemoryQueue) (p : Priority) (id : Uuid) (rest : List Uuid)
    → IsWellFormed r m
    → queued m.queues p ≡ id ∷ rest
    → (job : JobRef) × (get m.job_storage id ≡ some job)
known_ref r m p id rest h e =
    let k : All (IsKnown m.job_storage) (id ∷ rest) =
      subst (All (IsKnown m.job_storage)) e (h.waiting p) in
    ground (arith, k.0)

pub pop-IsWellFormed :
    (r : Runtime) (m : MemoryQueue) (p : Priority) (id : Uuid) (rest : List Uuid)
    → IsWellFormed r m
    → queued m.queues p ≡ id ∷ rest
    → IsWellFormed r (record m { queues = put m.queues p rest })
pop-IsWellFormed r m p id rest h e = record {
  lanes = put-IsMap m.queues p rest h.lanes;
  delays = h.delays;
  waiting = λ q.
      waiting-put m.job_storage m.queues p q rest
        (let k : All (IsKnown m.job_storage) (id ∷ rest) =
            subst (All (IsKnown m.job_storage)) e (h.waiting p) in
          k.1)
        (h.waiting q);
  delayed = h.delayed;
  keyed = h.keyed;
}

-- EnqueueDelayed keeps the queue well formed.
pub enqueue_delayed-IsWellFormed :
    (p : JobRef) (t : Time) (r : Runtime) (m : MemoryQueue)
    → IsWellFormed r m
    → IsWellFormed r (enqueue_delayed p t (r, m)).1.1
unfolding enqueue_delayed
enqueue_delayed-IsWellFormed p t r m h =
    let job = r.cells p in
    record {
      lanes = h.lanes;
      delays = put-IsMap m.delayed_jobs job.id t h.delays;
      waiting = λ q.
          All-mono (IsKnown m.job_storage) _ (queued m.queues q)
            (contains-put m.job_storage job.id p) (h.waiting q);
      delayed = λ id d. ground (
        arith,
        get-put m.job_storage job.id id p,
        get-put m.delayed_jobs job.id id t,
        h.delayed id,
      );
      keyed = λ id q e.
          ground (arith, get-put m.job_storage job.id id p, h.keyed id q, nat_eqb_iff job.id id);
    }

pub move_to_dead_letter-IsWellFormed :
    (p : JobRef) (r : Runtime) (m : MemoryQueue)
    → IsWellFormed r m
    → IsWellFormed r (move_to_dead_letter p (r, m)).1.1
unfolding move_to_dead_letter
move_to_dead_letter-IsWellFormed p r m h = record {
  lanes = h.lanes;
  delays = h.delays;
  waiting = h.waiting;
  delayed = h.delayed;
  keyed = h.keyed;
}

pub activate-IsWellFormed :
    (id : Uuid) (r : Runtime) (m : MemoryQueue)
    → IsWellFormed r m
    → IsWellFormed (activate id (r, m)).0 (activate id (r, m)).1
unfolding activate
activate-IsWellFormed id r m h = elim (Option-cases (get m.job_storage id)) [
  | inl e ↦ rw (e, activate) h
  | inr (p, e) ↦
      rw (e, activate)
        (record {
          lanes = put-IsMap m.queues _ _ h.lanes;
          delays = delete-IsMap m.delayed_jobs id h.delays;
          waiting = λ q.
              waiting-put m.job_storage m.queues _ q _
                (All-append (IsKnown m.job_storage) (queued m.queues (r.cells p).priority) _
                  (h.waiting _) (ground (arith, e), tt))
                (h.waiting q);
          delayed = λ j d. ground (arith, get-delete m.delayed_jobs id j, h.delayed j);
          keyed = λ j q k. ground (
            arith,
            cells-write p q (record (r.cells p) { status = status_pending }) r,
            h.keyed j q,
            h.keyed id p,
          );
        })
]

activate_all-IsWellFormed :
    (ids : List Uuid) (r : Runtime) (m : MemoryQueue)
    → IsWellFormed r m
    → IsWellFormed (activate_all ids (r, m)).0 (activate_all ids (r, m)).1
unfolding activate_all
activate_all-IsWellFormed [] r m h = h
activate_all-IsWellFormed (id ∷ ids) r m h =
    activate_all-IsWellFormed ids _ _ (activate-IsWellFormed id r m h)

pub IsWellFormed-now : (r : Runtime) (m : MemoryQueue) → IsWellFormed r m → IsWellFormed (now r).1 m
unfolding now
IsWellFormed-now r m h = record {
  lanes = h.lanes;
  delays = h.delays;
  waiting = h.waiting;
  delayed = h.delayed;
  keyed = h.keyed;
}

-- ProcessDelayedJobs keeps the queue well formed, in whatever order it takes the delayed jobs.
pub process_delayed_jobs-IsWellFormed :
    (range_order : List (Uuid × Time) → List (Uuid × Time)) (r : Runtime) (m : MemoryQueue)
    → IsWellFormed r m
    → let s = (process_delayed_jobs range_order (r, m)).1 in IsWellFormed s.0 s.1
unfolding process_delayed_jobs
process_delayed_jobs-IsWellFormed range_order r m h =
    activate_all-IsWellFormed (ready_jobs (now r).0 (range_order m.delayed_jobs)) (now r).1 m
      (IsWellFormed-now r m h)
