-- ===== src/Pipeline/Places.antt =====
-- No job is lost and none is in two places while memory queues (internal/adapters/secondary/queue/memory.go)
-- serve the scheduler and the workers.
use job_schedular_service.Base.{◌≤◌, ◌≡◌, refl, ◌∙◌, Bool, List, [], ◌∷◌, arith}
use job_schedular_service.Base.Map.{Map, get, contains, nat_key, int_key}
use job_schedular_service.Domain.Retry.{Time}
use job_schedular_service.Domain.Job.{Uuid}
use job_schedular_service.Runtime.{Runtime, now}
use job_schedular_service.Memory.Queue.{
  MemoryQueue, State, get_queue_stats, process_delayed_jobs, activate, activate_all, ready_jobs,
}
use job_schedular_service.Memory.Queue.Invariant.{IsWellFormed, IsWellFormed-now}
use job_schedular_service.Memory.Queue.Delayed.{Ranges}
use job_schedular_service.Memory.Queue.Reachable.{
  Step-IsSound, new_memory_queue-IsSound, activate_all-keeps, promotes as queue_promotes,
  counts as queue_counts, others as queue_others,
}
use job_schedular_service.Pipeline.{
  Pipeline, Step, Reachable, schedules, schedules_later, takes, completes, retries, buries,
  promotes, counts, others, fresh, later, count, lane_count, one_if, places,
}
use job_schedular_service.Pipeline.Lanes.{waiting, activate_all-waiting, ready_jobs-AreDelayed}
use job_schedular_service.Pipeline.Conservation.{
  IsConserved, schedules-IsConserved, schedules_later-IsConserved, takes-IsConserved,
  completes-IsConserved, buries-IsConserved, retries-IsConserved,
}

activate-dead_letter : (id : Uuid) (s : State) → (activate id s).1.dead_letter ≡ s.1.dead_letter
unfolding activate
activate-dead_letter id s = ground arith

activate_all-dead_letter :
    (ids : List Uuid) (s : State) → (activate_all ids s).1.dead_letter ≡ s.1.dead_letter
unfolding activate_all
activate_all-dead_letter [] s = refl
activate_all-dead_letter (id ∷ ids) s =
    activate_all-dead_letter ids (activate id s) ∙ activate-dead_letter id s

promotes-IsConserved :
    (range_order : Map Uuid Time → Map Uuid Time) (s : Pipeline)
    → Ranges (range_order s.queue.1.delayed_jobs) s.queue.1.delayed_jobs
    → IsConserved s
    → IsConserved (record s { queue = (process_delayed_jobs range_order s.queue).1 })
unfolding process_delayed_jobs now
promotes-IsConserved range_order s ranges h = record {
  queue = Step-IsSound s.queue _ (queue_promotes range_order) h.queue;
  held = rw keeps.0 h.held;
  placed = λ id. ground (arith, h.placed id, moved id, activate_all-dead_letter ids (r, m));
  known = rw keeps.0 h.known;
}
  where
    r : Runtime
    r = (now s.queue.0).1

    m : MemoryQueue
    m = s.queue.1

    ids : List Uuid
    ids = ready_jobs (now s.queue.0).0 (range_order m.delayed_jobs)

    keeps :
        ((activate_all ids (r, m)).1.job_storage ≡ m.job_storage)
        × ((activate_all ids (r, m)).0.next ≡ r.next)
    keeps = activate_all-keeps ids (r, m)

    well_formed : IsWellFormed r m
    well_formed = IsWellFormed-now s.queue.0 m h.queue.well_formed

    moved : (id : Uuid) → waiting id (activate_all ids (r, m)).1 ≡ waiting id m
    moved id = activate_all-waiting ids id r m well_formed (
        ready_jobs-AreDelayed (now s.queue.0).0 (range_order m.delayed_jobs) m.delayed_jobs
          ranges.once (λ j c. ground (arith, ranges.same j, c)))

Step-IsConserved : (s t : Pipeline) → Step s t → IsConserved s → IsConserved t
unfolding get_queue_stats
Step-IsConserved s _ (schedules p lt z) h = schedules-IsConserved p s lt z h
Step-IsConserved s _ (schedules_later p at lt z) h = schedules_later-IsConserved p at s lt z h
Step-IsConserved s _ (takes ps) h = takes-IsConserved ps s h
Step-IsConserved s _ (completes before after k e) h = completes-IsConserved s before after k e h
Step-IsConserved s _ (retries before after k at e) h = retries-IsConserved s before after k e h at
Step-IsConserved s _ (buries before after k e) h = buries-IsConserved s before after k e h
Step-IsConserved s _ (promotes range_order g) h = promotes-IsConserved range_order s g h
Step-IsConserved s _ counts h = record {
  queue = Step-IsSound s.queue _ queue_counts h.queue;
  held = h.held;
  placed = h.placed;
  known = h.known;
}
Step-IsConserved s _ (others r le same) h = record {
  queue = Step-IsSound s.queue _ (queue_others r le same) h.queue;
  held = h.held;
  placed = h.placed;
  known = h.known;
}

pub Reachable-IsConserved : {s : Pipeline} → Reachable s → IsConserved s
unfolding lane_count get
Reachable-IsConserved (fresh r) = record {
  queue = new_memory_queue-IsSound r;
  held = tt;
  placed = λ id. refl;
  known = λ id. refl;
}
Reachable-IsConserved (later h step) = Step-IsConserved _ _ step (Reachable-IsConserved h)

one_if-bound : (b : Bool) → one_if b ≤ 1
one_if-bound b = ground arith

-- In every state that the pipeline reaches from a new memory queue, each job that was scheduled is in
-- exactly one place, and no other id is in any: a place in a lane, the delayed jobs, the hands of a
-- worker, the completed jobs, or a place among the dead letters.
pub Reachable-places :
    {s : Pipeline} (id : Uuid)
    → Reachable s
    → (places id s ≡ count id s.scheduled) × (places id s ≤ 1)
Reachable-places {s} id h =
    let c = Reachable-IsConserved h in
    (
      c.placed id,
      omega (arith, c.placed id, c.known id, one_if-bound (contains s.queue.1.job_storage id)),
    )
