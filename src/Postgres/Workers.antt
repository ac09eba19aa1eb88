-- ===== src/Postgres/Workers.antt =====
-- The operations on histories and workers of internal/adapters/secondary/storage/postgres.go, and the
-- storage as a port.
use job_schedular_service.Base.{
  pos, String, Option, none, some, List, [], ◌∷◌, map, Result, ok, failed, and_then, wrap64, ◌+ℤ◌,
  ◌-ℤ◌,
}
use job_schedular_service.Domain.Retry.{Duration}
use job_schedular_service.Domain.Job.{Uuid, JobType, Error}
use job_schedular_service.Ports.{JobHistory, Worker, Port, StoragePort}
use job_schedular_service.Runtime.{Action, now, wrap_error}
use job_schedular_service.Postgres.{
  JobHistoryModel, WorkerModel, FieldCodec, Database, uuid, text, instant,
}
use job_schedular_service.Postgres.Conversion.{wrapped}
use job_schedular_service.Postgres.Jobs.{save_job, get_job, update_job, list_jobs}

-- the conversions of SaveJobHistory and GetJobHistory
abbrev pub history_model : JobHistory → JobHistoryModel
history_model h = record {
  id = h.id;
  job_id = h.job_id;
  worker_id = h.worker_id;
  attempt_number = h.attempt_number;
  started_at = h.started_at;
  completed_at = h.completed_at;
  status = h.status;
  error_message = h.error;
  duration = h.duration;
}

abbrev pub history_entry : JobHistoryModel → JobHistory
history_entry model = record {
  id = model.id;
  job_id = model.job_id;
  worker_id = model.worker_id;
  attempt_number = model.attempt_number;
  started_at = model.started_at;
  completed_at = model.completed_at;
  status = model.status;
  error = model.error_message;
  duration = model.duration;
}

-- the conversions of RegisterWorker and GetActiveWorkers
abbrev pub worker_model : Worker → String → WorkerModel
worker_model w types = record {
  id = w.id;
  hostname = w.hostname;
  supported_types = types;
  max_concurrent = w.max_concurrent;
  current_jobs = w.current_jobs;
  status = w.status;
  last_heartbeat = w.last_heartbeat;
  registered_at = w.registered_at;
}

abbrev pub worker_entry : WorkerModel → List JobType → Worker
worker_entry model types = record {
  id = model.id;
  hostname = model.hostname;
  supported_types = types;
  max_concurrent = model.max_concurrent;
  current_jobs = model.current_jobs;
  status = model.status;
  last_heartbeat = model.last_heartbeat;
  registered_at = model.registered_at;
}

abbrev pub with_result : {A : Type 0} → Result (List A) → List A × Option Error
with_result (failed err) = ([], some err)
with_result (ok entries) = (entries, none)

module _ {D : Type 0} (db : Database D) (codec : FieldCodec) where
  unfoldable pub save_job_history : JobHistory → Port D (Option Error)
  save_job_history h (r, d) =
      let (result, d') = db.save_history (history_model h) d in (result.error, (r, d'))

  unfoldable pub get_job_history : Uuid → Port D (List JobHistory × Option Error)
  get_job_history job_id (r, d) =
      let (result, d') =
        db.find_histories
          (record {
            conditions = ("job_id = ?", uuid job_id ∷ []) ∷ [];
            order = some "started_at DESC";
            limit = none;
            offset = none;
          })
          d in
      (with_result (and_then result (λ models. ok (map history_entry models))), (r, d'))

  -- RegisterWorker after the marshalling of the types
  abbrev pub save_worker : Worker → Result String → Action D (Option Error)
  save_worker w (failed err) d = (some (wrap_error "failed to marshal supported types: " err), d)
  save_worker w (ok types) d =
      let (result, d') = db.save_worker (worker_model w types) d in (result.error, d')

  unfoldable pub register_worker : Worker → Port D (Option Error)
  register_worker w (r, d) =
      let (err, d') = save_worker w (codec.marshal_types w.supported_types) d in (err, (r, d'))

  unfoldable pub update_worker_heartbeat : String → Port D (Option Error)
  unfolding now
  update_worker_heartbeat worker_id (r, d) =
      let (at, r') = now r in
      let (result, d') =
        db.update_workers (("id = ?", text worker_id ∷ []) ∷ [])
          (("last_heartbeat", instant at) ∷ []) d in
      (result.error, (r', d'))

  -- the loop of GetActiveWorkers
  unfoldable pub worker_entries : List WorkerModel → Result (List Worker)
  worker_entries [] = ok []
  worker_entries (model ∷ models) =
      let rest = worker_entries models in
      and_then
        (wrapped "failed to unmarshal supported types: "
          (codec.unmarshal_types model.supported_types))
        (λ types. and_then rest (λ workers. ok (worker_entry model types ∷ workers)))

  unfoldable pub get_active_workers : Port D (List Worker × Option Error)
  unfolding worker_entries
  get_active_workers (r, d) =
      let (result, d') =
        db.find_workers
          (record {
            conditions = ("status = ?", text "active" ∷ []) ∷ [];
            order = none;
            limit = none;
            offset = none;
          })
          d in
      (with_result (and_then result worker_entries), (r, d'))

  unfoldable pub deactivate_stale_workers : Duration → Port D (Option Error)
  unfolding now
  deactivate_stale_workers timeout (r, d) =
      let (at, r') = now r in
      let cutoff = at +ℤ wrap64 (pos 0 -ℤ timeout) in
      let (result, d') =
        db.update_workers
          (("last_heartbeat < ? AND status = ?", instant cutoff ∷ text "active" ∷ []) ∷ [])
          (("status", text "inactive") ∷ []) d in
      (result.error, (r', d'))

  -- PostgresStorage as a StoragePort
  abbrev pub postgres_storage : StoragePort D
  postgres_storage = record {
    save_job = save_job db codec;
    get_job = get_job db codec;
    update_job = update_job db codec;
    list_jobs = list_jobs db codec;
    save_job_history = save_job_history;
    get_job_history = get_job_history;
    register_worker = register_worker;
    update_worker_heartbeat = update_worker_heartbeat;
    get_active_workers = get_active_workers;
    deactivate_stale_workers = deactivate_stale_workers;
  }
