-- ===== src/Pipeline/Processing.antt =====
-- ProcessJob of internal/core/services/processor.go on a memory queue, as steps of the pipeline.
use job_schedular_service.Base.{
  wrap64, ◌+ℤ◌, pos, ◌≡◌, refl, none, some, List, [], ◌∷◌, ◌++◌, Option, String, inl, inr, Bool,
  true, false, ◌⊎◌,
}
use job_schedular_service.Base.Map.{Map, string_key}
use job_schedular_service.Domain.Retry.{Time}
use job_schedular_service.Domain.Job.{status_scheduled, can_retry, Job, Uuid, Error}
use job_schedular_service.Runtime.{
  wrap_error, ◌>>=◌, pure, Action, JobRef, Runtime, now, update, load, since, new_uuid,
}
use job_schedular_service.Ports.{StoragePort, QueuePort, JobHistory, jobs_failed}
use job_schedular_service.Memory.Queue.{MemoryQueue, enqueue_delayed, move_to_dead_letter}
use job_schedular_service.Memory.Ports.{memory_queue}
use job_schedular_service.Services.World.{
  World, on_runtime, on_storage, on_queue, log_if_failed, measure,
}
use job_schedular_service.Services.Processor.{
  Handlers, execute_job, next_retry, start_job, complete_job, fail_job, kill_job,
  handle_job_success, retry_job, bury_job, dispose, handle_job_failure, conclude, attempt_job,
  process_job,
}
use job_schedular_service.Pipeline.{Held, Reachable, later, completes}
use job_schedular_service.Pipeline.Moves.{
  Keeps, now-IsKeeping, new_uuid-IsKeeping, since-IsKeeping, update-IsKeeping, snapshot, Moves,
  Moves-bind, Moves-runtime, Moves-storage, Moves-log, Moves-retries, Moves-buries,
}
use job_schedular_service.Pipeline.Keeping.{
  AreKeeping, start_job-IsKeeping, complete_job-IsKeeping, fail_job-IsKeeping, kill_job-IsKeeping,
  next_retry-IsKeeping, execute_job-IsKeeping,
}

-- The calls of the storage that ProcessJob makes change no job's id.
pub record IsKeepingStorage {T : Type 0} (storage : StoragePort T) : Type 0 where
  pub updates : (p : JobRef) (s : Runtime × T) → Keeps s.0 (storage.update_job p s).1.0
  pub saves_history :
      (h : JobHistory) (s : Runtime × T) → Keeps s.0 (storage.save_job_history h s).1.0

-- The completed jobs after an attempt with that outcome.
abbrev pub finished : Option Error → Uuid → List Uuid → List Uuid
finished none id completed = completed ++ id ∷ []
finished (some err) id completed = completed

module _ {T : Type 0} (storage : StoragePort T) (order : Map Uuid Time → Map Uuid Time)
    (ok : IsKeepingStorage storage) (hs : List Held) where
  abbrev queue : QueuePort MemoryQueue
  queue = memory_queue order

  saved-Moves :
      (message : String) (p : JobRef)
      → Moves hs hs
          (do updated ← on_storage (storage.update_job p); log_if_failed message p updated)
  saved-Moves message p =
      Moves-bind hs hs hs (on_storage (storage.update_job p)) (log_if_failed message p)
        (Moves-storage hs (storage.update_job p) (ok.updates p)) (Moves-log hs message p)

  handle_job_success-Moves :
      (p : JobRef) (history : JobHistory) → Moves hs hs (handle_job_success storage queue p history)
  unfolding handle_job_success load
  handle_job_success-Moves p history w completed scheduled r =
      let w₁ = (on_runtime (complete_job p) w).1 in
      let r₁ =
        Moves-runtime hs (complete_job p) (complete_job-IsKeeping p) w completed scheduled r in
      saved-Moves "Failed to update completed job" p w₁ completed scheduled r₁

  retry_job-Moves :
      (id : Uuid) (err : Error) (p : JobRef)
      → Moves ((id, p) ∷ hs) hs (retry_job storage queue err p)
  unfolding retry_job load
  retry_job-Moves id err p w completed scheduled r =
      let held = (id, p) ∷ hs in
      let (at, w₁) = on_runtime (next_retry p) w in
      let mark = λ (job : Job). record job { status = status_scheduled; scheduled_at = at } in
      let r₁ = Moves-runtime held (next_retry p) (next_retry-IsKeeping p) w completed scheduled r in
      let r₂ =
        Moves-runtime held (update p mark) (update-IsKeeping p mark (λ job. refl)) w₁ completed
          scheduled r₁ in
      Moves-bind held hs hs (on_queue (enqueue_delayed p at))
        (log_if_failed "Failed to enqueue job for retry" p) (Moves-retries (id, p) hs at)
        (Moves-log hs "Failed to enqueue job for retry" p) (on_runtime (update p mark) w₁).1
        completed scheduled r₂

  bury_job-Moves :
      (id : Uuid) (err : Error) (p : JobRef)
      → Moves ((id, p) ∷ hs) hs (bury_job storage queue err p)
  unfolding bury_job load
  bury_job-Moves id err p w completed scheduled r =
      let held = (id, p) ∷ hs in
      let r₁ = Moves-runtime held (kill_job p) (kill_job-IsKeeping p) w completed scheduled r in
      Moves-bind held hs hs (on_queue (move_to_dead_letter p))
        (log_if_failed "Failed to move job to dead letter queue" p) (Moves-buries (id, p) hs)
        (Moves-log hs "Failed to move job to dead letter queue" p) (on_runtime (kill_job p) w).1
        completed scheduled r₁

  dispose-Moves :
      (b : Bool) (id : Uuid) (err : Error) (p : JobRef)
      → Moves ((id, p) ∷ hs) hs (dispose storage queue b err p)
  dispose-Moves true = retry_job-Moves
  dispose-Moves false = bury_job-Moves

  handle_job_failure-Moves :
      (id : Uuid) (p : JobRef) (history : JobHistory) (err : Error)
      → Moves ((id, p) ∷ hs) hs (handle_job_failure storage queue p history err)
  unfolding handle_job_failure load
  handle_job_failure-Moves id p history err w completed scheduled r =
      let w₁ = (on_runtime (fail_job err p) w).1 in
      let b = can_retry (w₁.runtime.cells p) in
      let r₁ =
        Moves-runtime ((id, p) ∷ hs) (fail_job err p) (fail_job-IsKeeping err p) w completed
          scheduled r in
      let r₂ = dispose-Moves b id err p w₁ completed scheduled r₁ in
      let w₂ = (dispose storage queue b err p w₁).1 in
      let job = w₂.runtime.cells p in
      saved-Moves "Failed to update failed job" p
        (measure (jobs_failed job.job_type job.priority err) w₂).1 completed scheduled r₂

  conclude-Reachable :
      (id : Uuid) (outcome : Option Error) (p : JobRef) (history : JobHistory)
      (w : World T MemoryQueue) (completed scheduled : List Uuid)
      → Reachable (snapshot w ((id, p) ∷ hs) completed scheduled)
      → Reachable (
          snapshot
            (conclude storage queue outcome p history w).1
            hs
            (finished outcome id completed)
            scheduled)
  conclude-Reachable id none p history w completed scheduled r =
      handle_job_success-Moves p history w (completed ++ id ∷ []) scheduled
        (later r (completes [] hs (id, p) refl))
  conclude-Reachable id (some err) p history w completed scheduled r =
      handle_job_failure-Moves id p history err w completed scheduled r

  -- A job that has been attempted is completed if its handler returned no error; else it is delayed
  -- or among the dead letters.
  abbrev Attempted : Uuid → List Uuid → List Uuid → Option Error × World T MemoryQueue → Type 0
  Attempted id completed scheduled (result, w') =
      Reachable (snapshot w' hs (finished result id completed) scheduled)

  attempt_job-Attempted :
      (handlers : Handlers) (id : Uuid) (p : JobRef) (worker_id : String) (w : World T MemoryQueue)
      (completed scheduled : List Uuid)
      → AreKeeping handlers
      → Reachable (snapshot w ((id, p) ∷ hs) completed scheduled)
      → Attempted id completed scheduled (attempt_job storage queue handlers p worker_id w)
  unfolding attempt_job load
  attempt_job-Attempted handlers id p worker_id w completed scheduled keeping r =
      let held = (id, p) ∷ hs in
      let (history_id, w₁) = on_runtime new_uuid w in
      let job = w₁.runtime.cells p in
      let (started_at, w₂) = on_runtime now w₁ in
      let (start_time, w₃) = on_runtime now w₂ in
      let (err, w₄) = on_runtime (execute_job handlers p) w₃ in
      let (duration, w₅) = on_runtime (since start_time) w₄ in
      let (completed_at, w₆) = on_runtime now w₅ in
      let r₁ = Moves-runtime held new_uuid new_uuid-IsKeeping w completed scheduled r in
      let r₂ = Moves-runtime held now now-IsKeeping w₁ completed scheduled r₁ in
      let r₃ = Moves-runtime held now now-IsKeeping w₂ completed scheduled r₂ in
      let r₄ =
        Moves-runtime held (execute_job handlers p) (execute_job-IsKeeping handlers p keeping) w₃
          completed scheduled r₃ in
      let r₅ =
        Moves-runtime held (since start_time) (since-IsKeeping start_time) w₄ completed scheduled
          r₄ in
      let r₆ = Moves-runtime held now now-IsKeeping w₅ completed scheduled r₅ in
      let entry : JobHistory = record {
        id = w₆.runtime.uuid_text history_id;
        job_id = job.id;
        worker_id = worker_id;
        attempt_number = wrap64 (job.retry_policy.current_attempts +ℤ pos 1);
        started_at = started_at;
        completed_at = some completed_at;
        status = "processing";
        error = "";
        duration = duration;
      } in
      let (history, w₇) = conclude storage queue err p entry w₆ in
      let r₇ = conclude-Reachable id err p entry w₆ completed scheduled r₆ in
      Moves-bind hs hs hs (on_storage (storage.save_job_history history))
        (log_if_failed "Failed to save job history" p)
        (Moves-storage hs (storage.save_job_history history) (ok.saves_history history))
        (Moves-log hs "Failed to save job history" p) w₇ (finished err id completed) scheduled r₇

  -- The job was attempted, or its first save failed and its worker still holds it.
  abbrev pub Disposes : Held → List Uuid → List Uuid → Option Error × World T MemoryQueue → Type 0
  Disposes k completed scheduled (result, w') =
      Reachable (snapshot w' hs (finished result k.0 completed) scheduled)
      ⊎ (Reachable (snapshot w' (k ∷ hs) completed scheduled)
          × ((err : Error) × (result ≡ some (wrap_error "failed to update job status: " err))))

  -- ProcessJob after its first save, by the error of that
  abbrev resume :
      Handlers → JobRef → String → Option Error → Action (World T MemoryQueue) (Option Error)
  resume handlers p worker_id none = attempt_job storage queue handlers p worker_id
  resume handlers p worker_id (some err) =
      pure (some (wrap_error "failed to update job status: " err))

  resume-Disposes :
      (handlers : Handlers) (id : Uuid) (p : JobRef) (worker_id : String) (updated : Option Error)
      (w : World T MemoryQueue) (completed scheduled : List Uuid)
      → AreKeeping handlers
      → Reachable (snapshot w ((id, p) ∷ hs) completed scheduled)
      → Disposes (id, p) completed scheduled (resume handlers p worker_id updated w)
  resume-Disposes handlers id p worker_id none w completed scheduled keeping r =
      inl (attempt_job-Attempted handlers id p worker_id w completed scheduled keeping r)
  resume-Disposes handlers id p worker_id (some err) w completed scheduled keeping r =
      inr (r, (err, refl))

  pub process_job-Disposes :
      (handlers : Handlers) (id : Uuid) (p : JobRef) (worker_id : String) (w : World T MemoryQueue)
      (completed scheduled : List Uuid)
      → AreKeeping handlers
      → Reachable (snapshot w ((id, p) ∷ hs) completed scheduled)
      → Disposes (id, p) completed scheduled (process_job storage queue handlers p worker_id w)
  unfolding process_job
  process_job-Disposes handlers id p worker_id w completed scheduled keeping r =
      let held = (id, p) ∷ hs in
      let w₁ = (on_runtime (start_job worker_id p) w).1 in
      let (updated, w₂) = on_storage (storage.update_job p) w₁ in
      let r₁ =
        Moves-runtime held (start_job worker_id p) (start_job-IsKeeping worker_id p) w completed
          scheduled r in
      let r₂ = Moves-storage held (storage.update_job p) (ok.updates p) w₁ completed scheduled r₁ in
      resume-Disposes handlers id p worker_id updated w₂ completed scheduled keeping r₂
