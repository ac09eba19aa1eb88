-- ===== src/Services/Retries.antt =====
-- The retries of a job whose handler always fails: ProcessJob of
-- internal/core/services/processor.go again and again, with the memory adapters.
use job_schedular_service.Base.{
  ℕ, zero, suc, ◌+◌, ◌<◌, ◌^◌, ℤ, pos, ◌≡◌, refl, ap, ◌∙◌, some, [], ◌∷◌, ◌++◌, arith, String,
  wrap64, ◌+ℤ◌, ltb,
}
use job_schedular_service.Base.Map.{Map, get, nat_key}
use job_schedular_service.Domain.Retry.{Time}
use job_schedular_service.Domain.Job.{Uuid, Error, status_scheduled, status_dead}
use job_schedular_service.Domain.Job.Transitions.{attempts_remain, attempts_remain-lt}
use job_schedular_service.Runtime.{JobRef}
use job_schedular_service.Ports.{Worker}
use job_schedular_service.Memory.Ports.{memory_storage, memory_queue}
use job_schedular_service.Services.Processor.{Handlers, process_job}
use job_schedular_service.Services.Stages.{MemoryWorld}
use job_schedular_service.Services.Attempt.{Runs}
use job_schedular_service.Services.Lifecycle.{process_job-Requeues, process_job-Buries}

one_more : (c m : ℕ) → c < m → m < 2 ^ 63 → wrap64 (pos c +ℤ pos 1) ≡ pos (suc c)
unfolding ◌+ℤ◌ wrap64
one_more c m h hm = ground arith

module _ (jobs_order : Map Uuid JobRef → Map Uuid JobRef)
    (workers_order : Map String Worker → Map String Worker)
    (delayed_order : Map Uuid Time → Map Uuid Time) (handlers : Handlers) (p : JobRef)
    (worker_id : String) where
  -- n calls of ProcessJob for the same job
  unfoldable pub process_times : ℕ → MemoryWorld → MemoryWorld
  process_times zero w = w
  process_times (suc n) w =
      (process_job (memory_storage jobs_order workers_order) (memory_queue delayed_order) handlers p
        worker_id (process_times n w)).1

  -- A job with c attempts made, and its queue's dead letters.
  record Waits (w : MemoryWorld) (c : ℕ) (now : MemoryWorld) : Type 0 where
    pub id : (now.runtime.cells p).id ≡ (w.runtime.cells p).id
    pub job_type : (now.runtime.cells p).job_type ≡ (w.runtime.cells p).job_type
    pub payload : (now.runtime.cells p).payload ≡ (w.runtime.cells p).payload
    pub max_attempts :
        (now.runtime.cells p).retry_policy.max_attempts
        ≡ (w.runtime.cells p).retry_policy.max_attempts
    pub attempts : (now.runtime.cells p).retry_policy.current_attempts ≡ pos c
    pub dead_letter : now.queue.dead_letter ≡ w.queue.dead_letter
    pub saved : (q : JobRef) × (get now.storage.jobs (now.runtime.cells p).id ≡ some q)

  module _ (w : MemoryWorld) (saved : JobRef) (err : Error) (c m : ℕ)
      (is_saved : get w.storage.jobs (w.runtime.cells p).id ≡ some saved)
      (runs : Runs handlers p (w.runtime.cells p).job_type (w.runtime.cells p).payload (some err))
      (has_max : (w.runtime.cells p).retry_policy.max_attempts ≡ pos m)
      (has_attempts : (w.runtime.cells p).retry_policy.current_attempts ≡ pos c)
      (small : m < 2 ^ 63) where
    Runs-at :
        (now : MemoryWorld)
        → (now.runtime.cells p).job_type ≡ (w.runtime.cells p).job_type
        → (now.runtime.cells p).payload ≡ (w.runtime.cells p).payload
        → Runs handlers p (now.runtime.cells p).job_type (now.runtime.cells p).payload (some err)
    Runs-at now h k = rw (h, k) runs

    remain_at :
        (now : MemoryWorld) (d : ℕ)
        → Waits w d now
        → d < m
        → attempts_remain (now.runtime.cells p).retry_policy ≡ ltb (suc d) m
    remain_at now d at h =
        attempts_remain-lt (now.runtime.cells p).retry_policy m d (at.max_attempts ∙ has_max)
          at.attempts small h

    counted : (d : ℕ) → d < m → wrap64 (pos d +ℤ pos 1) ≡ pos (suc d)
    counted d h = one_more d m h small

    requeued :
        (k : ℕ) (now : MemoryWorld)
        → Waits w (c + k) now
        → c + suc k < m
        → let after =
            (process_job
              (memory_storage jobs_order workers_order)
              (memory_queue delayed_order)
              handlers
              p
              worker_id
              now).1 in
          Waits w (c + suc k) after × ((after.runtime.cells p).status ≡ status_scheduled)
    requeued k now at h =
        let (result, r) =
          process_job-Requeues jobs_order workers_order delayed_order handlers p worker_id now
            at.saved.0 at.saved.1 err (Runs-at now at.job_type at.payload)
            (remain_at now (c + k) at (omega arith) ∙ ground arith) in
        (
          record {
            id = r.id ∙ at.id;
            job_type = r.job_type ∙ at.job_type;
            payload = r.payload ∙ at.payload;
            max_attempts = r.max_attempts ∙ at.max_attempts;
            attempts =
                r.attempts
                ∙ ap (λ (a : ℤ). wrap64 (a +ℤ pos 1)) at.attempts
                ∙ counted (c + k) (omega arith)
                ∙ ap pos (omega arith);
            dead_letter = rw (r.queue) at.dead_letter;
            saved = (p, rw r.id r.recorded.is_saved);
          },
          r.status,
        )

    waits : (k : ℕ) → c + k < m → Waits w (c + k) (process_times k w)
    unfolding process_times
    waits zero h = record {
      id = refl;
      job_type = refl;
      payload = refl;
      max_attempts = refl;
      attempts = has_attempts ∙ ap pos (omega arith);
      dead_letter = refl;
      saved = (saved, is_saved);
    }
    waits (suc k) h = (requeued k (process_times k w) (waits k (omega arith)) h).0

    -- With the memory adapters, a saved job that may be tried m < 2 ^ 63 times, was tried c < m
    -- times, and whose handler returns the same error each time and leaves the job as it found it,
    -- is scheduled again after each of the first m - c - 1 calls of ProcessJob: each call counts
    -- one attempt more, and the dead letters are as they were.
    pub process_times-scheduled :
        (k : ℕ)
        → c + suc k < m
        → let after = process_times (suc k) w in
          ((after.runtime.cells p).status ≡ status_scheduled)
          × ((after.runtime.cells p).retry_policy.current_attempts ≡ pos (c + suc k))
          × (after.queue.dead_letter ≡ w.queue.dead_letter)
    unfolding process_times
    process_times-scheduled k h =
        let (at, status) = requeued k (process_times k w) (waits k (omega arith)) h in
        (status, at.attempts, at.dead_letter)

    -- With the memory adapters, a saved job that may be tried m < 2 ^ 63 times, was tried c < m
    -- times, and whose handler returns the same error each time and leaves the job as it found it,
    -- is dead after m - c calls of ProcessJob: m attempts are counted, and its id stands at the end
    -- of the dead letters, which have grown by it alone.
    pub process_times-dead :
        (k : ℕ)
        → c + suc k ≡ m
        → let after = process_times (suc k) w in
          ((after.runtime.cells p).status ≡ status_dead)
          × ((after.runtime.cells p).retry_policy.current_attempts ≡ pos m)
          × (after.queue.dead_letter ≡ w.queue.dead_letter ++ (w.runtime.cells p).id ∷ [])
    unfolding process_times
    process_times-dead k h =
        let at = waits k (omega arith) in
        let (result, r) =
          process_job-Buries jobs_order workers_order delayed_order handlers p worker_id
            (process_times k w) at.saved.0 at.saved.1 err
            (Runs-at (process_times k w) at.job_type at.payload)
            (remain_at (process_times k w) (c + k) at (omega arith) ∙ ground arith) in
        (
          r.status,
          r.attempts
              ∙ ap (λ (a : ℤ). wrap64 (a +ℤ pos 1)) at.attempts
              ∙ counted (c + k) (omega arith)
              ∙ ap pos (omega arith),
          rw (r.queue, at.dead_letter, at.id),
        )
