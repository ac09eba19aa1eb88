-- ===== src/Memory/Queue/Reachable.antt =====
-- The states of a memory queue (internal/adapters/secondary/queue/memory.go) that is shared by
-- goroutines: each call holds the lock, and between two calls other code makes and changes jobs.
use job_schedular_service.Base.{
  ◌<◌, ◌≤◌, ◌≡◌, refl, ◌∙◌, some, List, [], ◌∷◌, arith, Option-cases, inl, inr,
}
use job_schedular_service.Base.Map.{get, put, get-put, nat_key, int_key}
use job_schedular_service.Domain.Priority.{Priority}
use job_schedular_service.Domain.Retry.{Time}
use job_schedular_service.Domain.Job.{Uuid}
use job_schedular_service.Runtime.{JobRef, Runtime, now, write}
use job_schedular_service.Memory.Queue.{
  MemoryQueue, new_memory_queue, State, queued, enqueue, dequeue, enqueue_delayed,
  move_to_dead_letter, get_queue_stats, activate, activate_all, ready_jobs, process_delayed_jobs,
}
use job_schedular_service.Memory.Queue.Invariant.{
  IsWellFormed, enqueue-IsWellFormed, enqueue_delayed-IsWellFormed,
  move_to_dead_letter-IsWellFormed, process_delayed_jobs-IsWellFormed,
}
use job_schedular_service.Memory.Queue.Order.{dequeue_from-Served, dequeue-IsWellFormed}

-- A pointer to a job that was made lies below the next free address.
pub data Step (s : State) : State → Type 0 where
  enqueues : (p : JobRef) → p < s.0.next → Step s (enqueue p s).1
  dequeues : (priorities : List Priority) → Step s (dequeue priorities s).1
  delays : (p : JobRef) (at : Time) → p < s.0.next → Step s (enqueue_delayed p at s).1
  buries : (p : JobRef) → Step s (move_to_dead_letter p s).1
  promotes :
      (range_order : List (Uuid × Time) → List (Uuid × Time))
      → Step s (process_delayed_jobs range_order s).1
  counts : Step s (get_queue_stats s).1
  -- other code, which makes jobs and changes jobs under the same id
  others :
      (r : Runtime)
      → s.0.next ≤ r.next
      → ((p : JobRef) → p < s.0.next → (r.cells p).id ≡ (s.0.cells p).id)
      → Step s (r, s.1)

pub data Reachable : State → Type 0 where
  fresh : (r : Runtime) → Reachable (r, new_memory_queue)
  later : {s t : State} → Reachable s → Step s t → Reachable t

-- The queue is well formed, and the jobs that it knows were made.
pub record IsSound (s : State) : Type 0 where
  pub well_formed : IsWellFormed s.0 s.1
  pub made : (id : Uuid) (p : JobRef) → get s.1.job_storage id ≡ some p → p < s.0.next

pub new_memory_queue-IsSound : (r : Runtime) → IsSound (r, new_memory_queue)
unfolding queued get
new_memory_queue-IsSound r = record {
  well_formed = record {
    lanes = tt;
    delays = tt;
    waiting = λ p. tt;
    delayed = λ id h. ground arith;
    keyed = λ id p h. ground arith;
  };
  made = λ id p h. ground arith;
}

-- The ids of the jobs that the queue knows stay what they were.
IsWellFormed-keyed :
    (r r' : Runtime) (m : MemoryQueue)
    → IsWellFormed r m
    → ((id : Uuid) (p : JobRef) → get m.job_storage id ≡ some p → (r'.cells p).id ≡ (r.cells p).id)
    → IsWellFormed r' m
IsWellFormed-keyed r r' m h e = record {
  lanes = h.lanes;
  delays = h.delays;
  waiting = h.waiting;
  delayed = h.delayed;
  keyed = λ id p k. e id p k ∙ h.keyed id p k;
}

job_storage-dequeue :
    (r : Runtime) (m : MemoryQueue) (ps : List Priority)
    → IsWellFormed r m
    → ((dequeue ps (r, m)).1.1.job_storage ≡ m.job_storage)
      × ((dequeue ps (r, m)).1.0.next ≡ r.next)
unfolding dequeue
job_storage-dequeue r m ps h = elim (dequeue_from-Served r m ps h) [
  | inl (e, f) ↦ rw f (refl, refl)
  | inr (f, e) ↦ rw e (refl, refl)
]

activate-keeps :
    (id : Uuid) (s : State)
    → ((activate id s).1.job_storage ≡ s.1.job_storage) × ((activate id s).0.next ≡ s.0.next)
unfolding activate write
activate-keeps id s = elim (Option-cases (get s.1.job_storage id)) [
  | inl e ↦ rw (e, activate) (refl, refl)
  | inr (p, e) ↦ rw (e, activate) (refl, refl)
]

pub activate_all-keeps :
    (ids : List Uuid) (s : State)
    → ((activate_all ids s).1.job_storage ≡ s.1.job_storage)
      × ((activate_all ids s).0.next ≡ s.0.next)
unfolding activate_all
activate_all-keeps [] s = (refl, refl)
activate_all-keeps (id ∷ ids) s =
    let first = activate-keeps id s in
    let rest = activate_all-keeps ids (activate id s) in (rest.0 ∙ first.0, rest.1 ∙ first.1)

-- Nothing is forgotten about which jobs were made.
made-keeps :
    (s t : State)
    → (t.1.job_storage ≡ s.1.job_storage) × (t.0.next ≡ s.0.next)
    → IsSound s
    → (id : Uuid) (p : JobRef) → get t.1.job_storage id ≡ some p
    → p < t.0.next
made-keeps s t e h id p k = ground (arith, e, h.made id p)

made-put :
    (s : State) (q : JobRef) (j id : Uuid) (p : JobRef)
    → IsSound s
    → q < s.0.next
    → get (put s.1.job_storage j q) id ≡ some p
    → p < s.0.next
made-put s q j id p h lt k = ground (arith, get-put s.1.job_storage j id q, h.made id p)

pub Step-IsSound : (s t : State) → Step s t → IsSound s → IsSound t
unfolding enqueue dequeue enqueue_delayed move_to_dead_letter process_delayed_jobs get_queue_stats
    now
Step-IsSound s _ (enqueues p lt) h = record {
  well_formed = enqueue-IsWellFormed p s.0 s.1 h.well_formed;
  made = λ id q k. made-put s p (s.0.cells p).id id q h lt k;
}
Step-IsSound s _ (dequeues ps) h = record {
  well_formed = dequeue-IsWellFormed s.0 s.1 ps h.well_formed;
  made = made-keeps s (dequeue ps s).1 (job_storage-dequeue s.0 s.1 ps h.well_formed) h;
}
Step-IsSound s _ (delays p at lt) h = record {
  well_formed = enqueue_delayed-IsWellFormed p at s.0 s.1 h.well_formed;
  made = λ id q k. made-put s p (s.0.cells p).id id q h lt k;
}
Step-IsSound s _ (buries p) h = record {
  well_formed = move_to_dead_letter-IsWellFormed p s.0 s.1 h.well_formed;
  made = h.made;
}
Step-IsSound s _ (promotes range_order) h = record {
  well_formed = process_delayed_jobs-IsWellFormed range_order s.0 s.1 h.well_formed;
  made =
      made-keeps s (process_delayed_jobs range_order s).1
        (activate_all-keeps (ready_jobs (now s.0).0 (range_order s.1.delayed_jobs))
          ((now s.0).1, s.1))
        h;
}
Step-IsSound s _ counts h = record { well_formed = h.well_formed; made = h.made }
Step-IsSound s _ (others r le same) h = record {
  well_formed = IsWellFormed-keyed s.0 r s.1 h.well_formed (λ id p k. same p (h.made id p k));
  made = λ id p k. let lt = h.made id p k in omega arith;
}

-- In every state that a memory queue reaches from a new one, by calls of its methods for jobs that
-- were made, in whatever order they come and Go ranges over the map, and by code that makes jobs,
-- changes jobs under the same id and reads the clock in between, the queue is well formed and knows
-- only jobs that were made.
pub Reachable-IsSound : {s : State} → Reachable s → IsSound s
Reachable-IsSound (fresh r) = new_memory_queue-IsSound r
Reachable-IsSound (later h step) = Step-IsSound _ _ step (Reachable-IsSound h)
