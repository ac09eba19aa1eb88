-- ===== src/Examples/Storage.antt =====
-- Runs of internal/adapters/secondary/storage/memory.go.
use mathlib.Core.List.{mem-cons_self}
use mathlib.Core.List.Perm
use job_schedular_service.Base.{
  pos, ◌≡◌, refl, arith, some, none, map, Mem, ◌≤ℤ◌, wrap64, ◌+ℤ◌, ◌-ℤ◌, select, drop,
}
use job_schedular_service.Base.Map.{get, nat_key, string_key}
use job_schedular_service.Domain.Job.{status_pending}
use job_schedular_service.Runtime.{now}
use job_schedular_service.Ports.{JobFilter, JobHistory}
use job_schedular_service.Memory.Storage.{
  passes, list_jobs, update_worker_heartbeat, deactivate_stale_workers, deactivate,
  get_active_workers,
}
use job_schedular_service.Memory.Storage.Listing.{limited, list_jobs-page}
use job_schedular_service.Memory.Storage.Workers.{
  cutoff_of, heartbeat_survives_sweep, active_after_sweep,
}
use job_schedular_service.Examples.{runtime, storage, worker, same_order}

abbrev first_page : JobFilter
first_page = record {
  status = some status_pending;
  job_type = none;
  priority = none;
  limit = pos 1;
  offset = pos 1;
}

abbrev entry : JobHistory
entry = record {
  id = "h";
  job_id = 101;
  worker_id = "w";
  attempt_number = pos 1;
  started_at = pos 5;
  completed_at = none;
  status = "processing";
  error = "";
  duration = pos 0;
}

list_jobs-page_example : list_jobs same_order first_page (runtime, storage) ≡ (
  (
    limited
        (pos 1)
        0
        (drop 1 (select (λ p. passes first_page (runtime.cells p)) (map (λ e. e.1) storage.jobs))),
    none,
  ),
  (runtime, storage),
)
list_jobs-page_example = list_jobs-page same_order first_page runtime storage

heartbeat_survives_sweep_example :
    get
      (deactivate_stale_workers
        (pos 100)
        (update_worker_heartbeat "w" (runtime, storage)).1).1.1.workers
      "w"
    ≡ some (record worker { last_heartbeat = pos 1000 })
unfolding get
heartbeat_survives_sweep_example =
    heartbeat_survives_sweep "w" worker (pos 100) runtime storage refl (ground arith) (ground arith)
      (unfold ◌+ℤ◌ in ground arith)

-- Nothing is stale within a thousand nanoseconds.
worker_listed :
    Mem worker
      (get_active_workers same_order (deactivate_stale_workers (pos 1000) (runtime, storage)).1).0.0
unfolding get_active_workers deactivate_stale_workers deactivate wrap64 ◌+ℤ◌ ◌-ℤ◌ now
worker_listed = mem-cons_self

active_after_sweep_example : cutoff_of (pos 1000) (pos 1000) ≤ℤ pos 10
unfolding now
active_after_sweep_example =
    active_after_sweep same_order (pos 1000) runtime storage worker (λ l. Perm.refl l) worker_listed
