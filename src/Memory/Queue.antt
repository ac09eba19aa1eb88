-- ===== src/Memory/Queue.antt =====
-- internal/adapters/secondary/queue/memory.go. Each method holds the queue's lock from its first
-- line to its last, so it is one step. The lines that print are left out.
pub mod Invariant
pub mod Order
pub mod Fifo
pub mod Delayed
pub mod Lanes
pub mod Reachable
use mathlib.Core.Option.{get_or}
use job_schedular_service.Base.{
  ℕ, ℤ, ◌≡◌, refl, Option, none, some, List, [], ◌∷◌, ◌++◌, map, Bool, leb_ℤ, length, select,
}
use job_schedular_service.Base.Map.{Map, get, put, delete, nat_key, int_key}
use job_schedular_service.Domain.Priority.{Priority}
use job_schedular_service.Domain.Retry.{Time}
use job_schedular_service.Domain.Job.{Job, Uuid, Error, status_pending}
use job_schedular_service.Ports.{QueueStats}
use job_schedular_service.Runtime.{Action, JobRef, Runtime, now, write}

pub record MemoryQueue : Type 0 where
  pub queues : Map Priority (List Uuid)
  pub delayed_jobs : Map Uuid Time
  pub dead_letter : List Uuid
  pub job_storage : Map Uuid JobRef

-- NewMemoryQueue
abbrev pub new_memory_queue : MemoryQueue
new_memory_queue = record { queues = []; delayed_jobs = []; dead_letter = []; job_storage = [] }

-- queues[priority], nil if there is no entry
unfoldable pub queued : Map Priority (List Uuid) → Priority → List Uuid
unfolding get
queued queues p = get_or (get queues p) []

abbrev pub State : Type 0
State = Runtime × MemoryQueue

unfoldable pub enqueue : JobRef → Action State (Option Error)
enqueue p (r, m) =
    let job = r.cells p in
    let m' = record m { job_storage = put m.job_storage job.id p } in
    (
      none,
      (
        r,
        record m' {
          queues = put m'.queues job.priority (queued m'.queues job.priority ++ job.id ∷ []);
        },
      ),
    )

-- the loop of Dequeue over the priorities that are left
unfoldable pub dequeue_from :
    List Priority → MemoryQueue → Option JobRef × Option Error × MemoryQueue
dequeue_from [] m = (none, some "no jobs available", m)
dequeue_from (p ∷ ps) m = elim (queued m.queues p) [
  | [] ↦ dequeue_from ps m
  | job_id ∷ rest ↦
      let m' = record m { queues = put m.queues p rest } in
      elim (get m'.job_storage job_id) [
        | some job ↦ (some job, none, m')
        | none ↦ dequeue_from ps m'
      ]
]

unfoldable pub dequeue : List Priority → Action State (Option JobRef × Option Error)
unfolding dequeue_from
dequeue priorities (r, m) = let (job, err, m') = dequeue_from priorities m in ((job, err), (r, m'))

unfoldable pub enqueue_delayed : JobRef → Time → Action State (Option Error)
enqueue_delayed p delay_until (r, m) =
    let job = r.cells p in
    (
      none,
      (
        r,
        record m {
          job_storage = put m.job_storage job.id p;
          delayed_jobs = put m.delayed_jobs job.id delay_until;
        },
      ),
    )

unfoldable pub move_to_dead_letter : JobRef → Action State (Option Error)
move_to_dead_letter p (r, m) =
    (none, (r, record m { dead_letter = m.dead_letter ++ (r.cells p).id ∷ [] }))

-- the loop of GetQueueStats over the entries of m.queues
unfoldable pub count_active : Map Priority (List Uuid) → Map Priority ℕ
count_active [] = []
count_active ((p, q) ∷ queues) = put (count_active queues) p (length q)

unfoldable pub get_queue_stats : Action State (QueueStats × Option Error)
unfolding count_active
get_queue_stats (r, m) = (
  (
    record {
      active_jobs = count_active m.queues;
      delayed_jobs = length m.delayed_jobs;
      dead_letter_jobs = length m.dead_letter;
    },
    none,
  ),
  (r, m),
)

-- scheduledTime.Before(now) || scheduledTime.Equal(now)
abbrev pub is_due : Time → Uuid × Time → Bool
is_due instant (job_id, scheduled_time) = leb_ℤ scheduled_time instant

-- the first loop of ProcessDelayedJobs, over the entries in the order in which `range` gives them
unfoldable pub ready_jobs : Time → List (Uuid × Time) → List Uuid
ready_jobs instant entries = map (λ e. e.0) (select (is_due instant) entries)

-- the body of the second loop
unfoldable pub activate : Uuid → State → State
activate job_id (r, m) = elim (get m.job_storage job_id) [
  | none ↦ (r, m)
  | some p ↦
      let job = r.cells p in
      (
        write p (record job { status = status_pending }) r,
        record m {
          delayed_jobs = delete m.delayed_jobs job_id;
          queues = put m.queues job.priority (queued m.queues job.priority ++ job_id ∷ []);
        },
      )
]

-- the second loop of ProcessDelayedJobs
unfoldable pub activate_all : List Uuid → State → State
activate_all [] s = s
activate_all (job_id ∷ rest) s = activate_all rest (activate job_id s)

-- `range_order` is the order in which Go ranges over the map.
unfoldable pub process_delayed_jobs :
    (List (Uuid × Time) → List (Uuid × Time)) → Action State (Option Error)
process_delayed_jobs range_order (r, m) =
    let (instant, r') = now r in
    (none, activate_all (ready_jobs instant (range_order m.delayed_jobs)) (r', m))
