-- ===== src/Memory/Storage/Jobs.antt =====
-- Jobs and histories in internal/adapters/secondary/storage/memory.go.
use mathlib.Core.Option.{get_or}
use job_schedular_service.Base.{
  ◌≡◌, none, some, [], ◌∷◌, ◌++◌, arith, if◌then◌else◌, nat_eqb, nat_eqb_iff,
}
use job_schedular_service.Base.Map.{get, get-put, nat_key}
use job_schedular_service.Domain.Job.{Uuid}
use job_schedular_service.Ports.{JobHistory}
use job_schedular_service.Runtime.{JobRef, Runtime}
use job_schedular_service.Memory.Storage.{
  MemoryStorage, save_job, get_job, save_job_history, get_job_history,
}

-- After SaveJob, GetJob returns the saved job under its id, and under any other id what it returned
-- before.
pub get_job-save_job :
    (p : JobRef) (id : Uuid) (r : Runtime) (m : MemoryStorage)
    → (get_job id (save_job p (r, m)).1).0
      ≡ (if nat_eqb (r.cells p).id id then (some p, none) else (get_job id (r, m)).0)
unfolding get_job save_job
get_job-save_job p id r m = ground (arith, get-put m.jobs (r.cells p).id id p)

-- After SaveJobHistory, GetJobHistory returns the entry at the end of its job's history, and any
-- other history as it was.
pub get_job_history-save_job_history :
    (h : JobHistory) (id : Uuid) (r : Runtime) (m : MemoryStorage)
    → (get_job_history id (save_job_history h (r, m)).1).0.0 ≡ (
        if nat_eqb h.job_id id
        then (get_job_history id (r, m)).0.0 ++ h ∷ []
        else (get_job_history id (r, m)).0.0)
unfolding get_job_history save_job_history
get_job_history-save_job_history h id r m = ground (
  arith,
  get-put m.history h.job_id id (get_or (get m.history h.job_id) [] ++ h ∷ []),
  nat_eqb_iff h.job_id id,
)
