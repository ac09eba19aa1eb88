-- ===== src/Memory/Storage.antt =====
-- internal/adapters/secondary/storage/memory.go. Each method holds the storage's lock from its
-- first line to its last, so it is one step. The lines that print are left out. Histories and
-- workers are not changed by anyone else once they are stored, so they are kept by value.
pub mod Listing
pub mod Workers
pub mod Jobs
use mathlib.Core.Option.{get_or}
use job_schedular_service.Base.{
  ℕ, zero, suc, pos, String, Bool, true, false, ◌&&◌, not, Option, none, some, List, [], ◌∷◌, ◌++◌,
  map, ltb_ℤ, leb_ℤ, wrap64, ◌+ℤ◌, ◌-ℤ◌, select, if◌then◌else◌,
}
use job_schedular_service.Base.Map.{Map, get, put, ◌==◌, nat_key, int_key, string_key, Key}
use job_schedular_service.Domain.Retry.{Time, Duration}
use job_schedular_service.Domain.Job.{Job, Uuid, Error}
use job_schedular_service.Ports.{JobFilter, JobHistory, Worker}
use job_schedular_service.Runtime.{Action, JobRef, Runtime, now, write}

pub record MemoryStorage : Type 0 where
  pub jobs : Map Uuid JobRef
  pub history : Map Uuid (List JobHistory)
  pub workers : Map String Worker

-- NewMemoryStorage
abbrev pub new_memory_storage : MemoryStorage
new_memory_storage = record { jobs = []; history = []; workers = [] }

abbrev pub State : Type 0
State = Runtime × MemoryStorage

unfoldable pub save_job : JobRef → Action State (Option Error)
save_job p (r, m) = (none, (r, record m { jobs = put m.jobs (r.cells p).id p }))

unfoldable pub get_job : Uuid → Action State (Option JobRef × Option Error)
get_job id (r, m) = elim (get m.jobs id) [
  | none ↦ ((none, some "job not found"), (r, m))
  | some job ↦ ((some job, none), (r, m))
]

unfoldable pub update_job : JobRef → Action State (Option Error)
update_job p (r, m) = elim (get m.jobs (r.cells p).id) [
  | none ↦ (some "job not found", (r, m))
  | some _ ↦
      let (instant, r') = now r in
      let job = record (r.cells p) { updated_at = instant } in
      (none, (write p job r', record m { jobs = put m.jobs job.id p }))
]

-- `wanted` is nil, or what the field has to be
abbrev pub admits {ℓ} : {A : Type ℓ} ⦃key : Key A⦄ → Option A → A → Bool
admits none a = true
admits (some wanted) a = a == wanted

-- the three tests of ListJobs that skip a job
unfoldable pub passes : JobFilter → Job → Bool
passes filter job =
    admits filter.status job.status
    && admits filter.job_type job.job_type
    && admits filter.priority job.priority

-- the loop of ListJobs, with its counters `count` and `skipped`
unfoldable pub list_from : Runtime → JobFilter → ℕ → ℕ → List JobRef → List JobRef
list_from r filter count skipped [] = []
list_from r filter count skipped (p ∷ ps) = elim (passes filter (r.cells p)) [
  | false ↦ list_from r filter count skipped ps
  | true ↦ elim (ltb_ℤ (pos skipped) filter.offset) [
    | true ↦ list_from r filter count (suc skipped) ps
    | false ↦ elim (ltb_ℤ (pos 0) filter.limit && leb_ℤ filter.limit (pos count)) [
      | true ↦ []
      | false ↦ p ∷ list_from r filter (suc count) skipped ps
    ]
  ]
]

-- `range_order` is the order in which Go ranges over the map.
unfoldable pub list_jobs :
    (Map Uuid JobRef → Map Uuid JobRef) → JobFilter → Action State (List JobRef × Option Error)
list_jobs range_order filter (r, m) =
    ((list_from r filter 0 0 (map (λ e. e.1) (range_order m.jobs)), none), (r, m))

unfoldable pub save_job_history : JobHistory → Action State (Option Error)
save_job_history h (r, m) = (
  none,
  (r, record m { history = put m.history h.job_id (get_or (get m.history h.job_id) [] ++ h ∷ []) }),
)

unfoldable pub get_job_history : Uuid → Action State (List JobHistory × Option Error)
get_job_history job_id (r, m) = ((get_or (get m.history job_id) [], none), (r, m))

unfoldable pub register_worker : Worker → Action State (Option Error)
register_worker w (r, m) = (none, (r, record m { workers = put m.workers w.id w }))

unfoldable pub update_worker_heartbeat : String → Action State (Option Error)
update_worker_heartbeat worker_id (r, m) = elim (get m.workers worker_id) [
  | none ↦ (some "worker not found", (r, m))
  | some w ↦
      let (instant, r') = now r in
      (
        none,
        (
          r',
          record m { workers = put m.workers worker_id (record w { last_heartbeat = instant }) },
        ),
      )
]

abbrev pub is_active : Worker → Bool
is_active w = w.status == "active"

unfoldable pub get_active_workers :
    (Map String Worker → Map String Worker) → Action State (List Worker × Option Error)
get_active_workers range_order (r, m) =
    ((select is_active (map (λ e. e.1) (range_order m.workers)), none), (r, m))

-- the body of the loop of DeactivateStaleWorkers
unfoldable pub deactivate : Time → Worker → Worker
deactivate cutoff w =
    if ltb_ℤ w.last_heartbeat cutoff && is_active w then record w { status = "inactive" } else w

-- The loop changes each worker on its own, so the order does not matter.
unfoldable pub deactivate_stale_workers : Duration → Action State (Option Error)
deactivate_stale_workers timeout (r, m) =
    let (instant, r') = now r in
    let cutoff = instant +ℤ wrap64 (pos 0 -ℤ timeout) in
    (none, (r', record m { workers = map (λ e. (e.0, deactivate cutoff e.1)) m.workers }))
