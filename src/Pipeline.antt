-- ===== src/Pipeline.antt =====
-- The jobs that pass through a memory queue (internal/adapters/secondary/queue/memory.go) and the
-- goroutines that work on it: what ScheduleJob (internal/core/services/schedular.go) and ProcessNextJob
-- (internal/core/services/processor.go) do to the queue, call by call.
pub mod Lanes
pub mod Conservation
pub mod Places
pub mod Moves
pub mod Keeping
pub mod Processing
pub mod Next
pub mod Scheduling
pub mod Adapters
use job_schedular_service.Base.{
  ℕ, ◌+◌, ◌≤◌, ◌<◌, ◌≡◌, Bool, true, false, Option, none, some, List, [], ◌∷◌, ◌++◌, nat_eqb,
  if◌then◌else◌,
}
use job_schedular_service.Base.Map.{Map, get, contains, nat_key}
use job_schedular_service.Domain.Priority.{Priority}
use job_schedular_service.Domain.Retry.{Time}
use job_schedular_service.Domain.Job.{Uuid}
use job_schedular_service.Runtime.{JobRef, Runtime}
use job_schedular_service.Memory.Queue.{
  MemoryQueue, new_memory_queue, State, enqueue, dequeue, enqueue_delayed, move_to_dead_letter,
  get_queue_stats, process_delayed_jobs,
}
use job_schedular_service.Memory.Queue.Delayed.{Ranges}

-- A job that a worker has taken and not yet disposed of, with the id that it has.
abbrev pub Held : Type 0
Held = Uuid × JobRef

pub record Pipeline : Type 0 where
  pub queue : State
  pub held : List Held
  pub completed : List Uuid
  -- the ids of the jobs that ScheduleJob was given
  pub scheduled : List Uuid

-- What a call of Dequeue hands to the worker.
abbrev pub taken : Runtime → Option JobRef → List Held → List Held
taken r none held = held
taken r (some p) held = ((r.cells p).id, p) ∷ held

-- How often an id stands in a list.
abbrev pub count : Uuid → List Uuid → ℕ
count id [] = 0
count id (j ∷ ids) = (if nat_eqb j id then 1 else 0) + count id ids

pub data Step (s : Pipeline) : Pipeline → Type 0 where
  -- ScheduleJob: a job that was made, under an id that no job had
  schedules :
      (p : JobRef)
      → p < s.queue.0.next
      → count (s.queue.0.cells p).id s.scheduled ≡ 0
      → Step s (record s {
        queue = (enqueue p s.queue).1;
        scheduled = (s.queue.0.cells p).id ∷ s.scheduled;
      })
  schedules_later :
      (p : JobRef) (at : Time)
      → p < s.queue.0.next
      → count (s.queue.0.cells p).id s.scheduled ≡ 0
      → Step s (record s {
        queue = (enqueue_delayed p at s.queue).1;
        scheduled = (s.queue.0.cells p).id ∷ s.scheduled;
      })
  -- ProcessNextJob: the job is taken, and is then completed, put off or dead
  takes :
      (priorities : List Priority)
      → Step s (record s {
        queue = (dequeue priorities s.queue).1;
        held = taken s.queue.0 (dequeue priorities s.queue).0.0 s.held;
      })
  completes :
      (before after : List Held) (h : Held)
      → s.held ≡ before ++ h ∷ after
      → Step s (record s { held = before ++ after; completed = s.completed ++ h.0 ∷ [] })
  retries :
      (before after : List Held) (h : Held) (at : Time)
      → s.held ≡ before ++ h ∷ after
      → Step s (record s { held = before ++ after; queue = (enqueue_delayed h.1 at s.queue).1 })
  buries :
      (before after : List Held) (h : Held)
      → s.held ≡ before ++ h ∷ after
      → Step s (record s { held = before ++ after; queue = (move_to_dead_letter h.1 s.queue).1 })
  -- the promotion of the delayed jobs, and the statistics
  promotes :
      (range_order : Map Uuid Time → Map Uuid Time)
      → Ranges (range_order s.queue.1.delayed_jobs) s.queue.1.delayed_jobs
      → Step s (record s { queue = (process_delayed_jobs range_order s.queue).1 })
  counts : Step s (record s { queue = (get_queue_stats s.queue).1 })
  -- other code, which makes jobs and changes jobs under the same id
  others :
      (r : Runtime)
      → s.queue.0.next ≤ r.next
      → ((p : JobRef) → p < s.queue.0.next → (r.cells p).id ≡ (s.queue.0.cells p).id)
      → Step s (record s { queue = (r, s.queue.1) })

pub data Reachable : Pipeline → Type 0 where
  fresh :
      (r : Runtime)
      → Reachable
          (record { queue = (r, new_memory_queue); held = []; completed = []; scheduled = [] })
  later : {s t : Pipeline} → Reachable s → Step s t → Reachable t

-- How often an id stands in the lanes, and among the jobs that are held.
unfoldable pub lane_count : Uuid → Map Priority (List Uuid) → ℕ
lane_count id [] = 0
lane_count id ((p, ids) ∷ queues) = count id ids + lane_count id queues

abbrev pub held_count : Uuid → List Held → ℕ
held_count id [] = 0
held_count id ((j, p) ∷ held) = (if nat_eqb j id then 1 else 0) + held_count id held

abbrev pub one_if : Bool → ℕ
one_if b = if b then 1 else 0

-- In how many places an id stands: the lanes, the delayed jobs, the workers, the jobs that are
-- completed and the dead letters.
abbrev pub places : Uuid → Pipeline → ℕ
places id s =
    lane_count id s.queue.1.queues
    + one_if (contains s.queue.1.delayed_jobs id)
    + held_count id s.held
    + count id s.completed
    + count id s.queue.1.dead_letter
