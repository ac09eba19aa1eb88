-- ===== src/Memory/Queue/Lanes.antt =====
-- Lanes of internal/adapters/secondary/queue/memory.go that nobody asks for.
use job_schedular_service.Base.{
  ℕ, zero, suc, ◌≡◌, refl, ◌∙◌, false, List, [], ◌∷◌, ◌++◌, arith, All, int_eqb, int_eqb_iff,
  List-cases, Option-cases, inl, inr,
}
use job_schedular_service.Base.Map.{get, put, nat_key, int_key}
use job_schedular_service.Domain.Priority.{Priority}
use job_schedular_service.Domain.Job.{Uuid}
use job_schedular_service.Runtime.{JobRef, Runtime}
use job_schedular_service.Memory.Queue.{MemoryQueue, State, queued, enqueue, dequeue_from, dequeue}
use job_schedular_service.Memory.Queue.Invariant.{queued-put}

-- `p` is none of the priorities.
abbrev pub IsUnasked : Priority → List Priority → Type 0
IsUnasked p priorities = All (λ q. int_eqb q p ≡ false) priorities

dequeue_from-unasked :
    (ps : List Priority) (m : MemoryQueue) (p : Priority)
    → IsUnasked p ps
    → queued (dequeue_from ps m).2.queues p ≡ queued m.queues p
unfolding dequeue_from
dequeue_from-unasked [] m p h = refl
dequeue_from-unasked (q ∷ ps) m p h = elim (List-cases (queued m.queues q)) [
  | inl e ↦ rw (e, dequeue_from) (dequeue_from-unasked ps m p h.1)
  | inr (id, rest, e) ↦
      rw (e, dequeue_from)
        (elim (Option-cases (get m.job_storage id)) [
          | inl k ↦
              rw (k, dequeue_from)
                (dequeue_from-unasked ps (record m { queues = put m.queues q rest }) p h.1
                  ∙ other rest)
          | inr (job, k) ↦ rw (k, dequeue_from) (other rest)
        ])
]
  where
    other : (rest : List Uuid) → queued (put m.queues q rest) p ≡ queued m.queues p
    other rest = rw (queued-put m.queues q p rest, h.0)

-- The queue after any number of calls of Dequeue.
unfoldable pub after_dequeues : ℕ → List Priority → State → State
after_dequeues zero priorities s = s
after_dequeues (suc n) priorities s = after_dequeues n priorities (dequeue priorities s).1

after_dequeues-unasked :
    (n : ℕ) (ps : List Priority) (s : State) (p : Priority)
    → IsUnasked p ps
    → queued (after_dequeues n ps s).1.queues p ≡ queued s.1.queues p
unfolding after_dequeues dequeue
after_dequeues-unasked zero ps s p h = refl
after_dequeues-unasked (suc n) ps s p h =
    after_dequeues-unasked n ps (dequeue ps s).1 p h ∙ dequeue_from-unasked ps s.1 p h

-- A job that is enqueued with a priority that is none of those asked for is still in its lane,
-- behind the jobs that waited there, after any number of calls of Dequeue.
pub unasked_starves :
    (n : ℕ) (ps : List Priority) (ref : JobRef) (r : Runtime) (m : MemoryQueue)
    → IsUnasked (r.cells ref).priority ps
    → queued (after_dequeues n ps (enqueue ref (r, m)).1).1.queues (r.cells ref).priority
      ≡ queued m.queues (r.cells ref).priority ++ (r.cells ref).id ∷ []
unfolding enqueue
unasked_starves n ps ref r m h =
    after_dequeues-unasked n ps (enqueue ref (r, m)).1 (r.cells ref).priority h
    ∙ ground (
      arith,
      queued-put m.queues (r.cells ref).priority (r.cells ref).priority
          (queued m.queues (r.cells ref).priority ++ (r.cells ref).id ∷ []),
      int_eqb_iff (r.cells ref).priority (r.cells ref).priority,
    )
