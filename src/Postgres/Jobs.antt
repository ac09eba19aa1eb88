-- ===== src/Postgres/Jobs.antt =====
-- The operations on jobs of internal/adapters/secondary/storage/postgres.go.
use job_schedular_service.Base.{
  ℕ, zero, suc, ℤ, pos, String, str_append, Option, none, some, List, [], ◌∷◌, ◌++◌, Result, ok,
  failed, and_then, ltb_ℤ, if◌then◌else◌,
}
use job_schedular_service.Domain.Retry.{Time}
use job_schedular_service.Domain.Job.{Job, Uuid, Status, Error, status_pending, status_scheduled}
use job_schedular_service.Ports.{JobFilter, Port}
use job_schedular_service.Runtime.{Action, JobRef, Runtime, now, allocate, wrap_error}
use job_schedular_service.Postgres.{
  JobModel, FieldCodec, Database, Query, Value, uuid, text, number, instant, texts, First, found,
  missing, broken,
}
use job_schedular_service.Postgres.Conversion.{wrapped, domain_to_job_model, job_model_to_domain}

abbrev pub by_id : Uuid → List (String × List Value)
by_id id = ("id = ?", uuid id ∷ []) ∷ []

abbrev pub where_equals :
    {A : Type 0} → String → (A → Value) → Option A → List (String × List Value)
where_equals condition value none = []
where_equals condition value (some wanted) = (condition, value wanted ∷ []) ∷ []

abbrev pub positive : ℤ → Option ℤ
positive n = if ltb_ℤ (pos 0) n then some n else none

-- the query that ListJobs builds
unfoldable pub list_query : JobFilter → Query
list_query filter = record {
  conditions =
      where_equals "status = ?" text filter.status
      ++ where_equals "type = ?" text filter.job_type
      ++ where_equals "priority = ?" number filter.priority;
  order = some "created_at DESC";
  limit = positive filter.limit;
  offset = positive filter.offset;
}

abbrev pub not_found : Runtime → Uuid → Error
not_found r id = str_append "job with id " (str_append (r.uuid_text id) " not found")

-- the end of UpdateJob and of UpdateJobStatus
abbrev pub affected : Error → Option Error → ℕ → Option Error
affected missing_job (some err) n = some err
affected missing_job none zero = some missing_job
affected missing_job none (suc n) = none

module _ {D : Type 0} (db : Database D) (codec : FieldCodec) where
  -- SaveJob after the conversion
  abbrev pub save_model : Result JobModel → Action D (Option Error)
  save_model (failed err) d = (some (wrap_error "failed to convert job to model: " err), d)
  save_model (ok model) d = let (result, d') = db.save_job model d in (result.error, d')

  unfoldable pub save_job : JobRef → Port D (Option Error)
  save_job p (r, d) =
      let (err, d') = save_model (domain_to_job_model codec (r.cells p)) d in (err, (r, d'))

  -- the end of GetJob: the new job, or the error of the conversion
  abbrev pub return_job : Result Job → Port D (Option JobRef × Option Error)
  return_job (failed err) s = ((none, some err), s)
  return_job (ok job) (r, d) = let (p, r') = allocate job r in ((some p, none), (r', d))

  abbrev pub after_first : First JobModel → Port D (Option JobRef × Option Error)
  after_first missing s = ((none, some "job not found"), s)
  after_first (broken err) s = ((none, some err), s)
  after_first (found model) s = return_job (job_model_to_domain codec model) s

  unfoldable pub get_job : Uuid → Port D (Option JobRef × Option Error)
  get_job id (r, d) =
      let (result, d') =
        db.first_job (record { conditions = by_id id; order = none; limit = none; offset = none })
          d in
      after_first result (r, d')

  -- UpdateJob after the conversion
  abbrev pub update_model : Error → Result JobModel → Action D (Option Error)
  update_model missing_job (failed err) d =
      (some (wrap_error "failed to convert job to model: " err), d)
  update_model missing_job (ok model) d =
      let (result, d') = db.save_job model d in
      (affected missing_job result.error result.rows_affected, d')

  unfoldable pub update_job : JobRef → Port D (Option Error)
  update_job p (r, d) =
      let job = r.cells p in
      let (err, d') = update_model (not_found r job.id) (domain_to_job_model codec job) d in
      (err, (r, d'))

  abbrev pub prepend : JobRef → List JobRef × Option Error → List JobRef × Option Error
  prepend p (ps, some err) = ([], some err)
  prepend p (ps, none) = (p ∷ ps, none)

  -- the loop over the models that were found
  unfoldable pub convert_models : List JobModel → Port D (List JobRef × Option Error)
  convert_models [] s = (([], none), s)
  convert_models (model ∷ models) (r, d) = elim (job_model_to_domain codec model) [
    | failed err ↦ (([], some err), (r, d))
    | ok job ↦
        let (p, r') = allocate job r in
        let (result, s') = convert_models models (r', d) in (prepend p result, s')
  ]

  abbrev pub after_find : Result (List JobModel) → Port D (List JobRef × Option Error)
  after_find (failed err) s = (([], some err), s)
  after_find (ok models) s = convert_models models s

  unfoldable pub find_jobs : Query → Port D (List JobRef × Option Error)
  unfolding convert_models
  find_jobs query (r, d) = let (result, d') = db.find_jobs query d in after_find result (r, d')

  unfoldable pub list_jobs : JobFilter → Port D (List JobRef × Option Error)
  unfolding list_query find_jobs
  list_jobs filter = find_jobs (list_query filter)

  unfoldable pub get_jobs_by_status : Status → ℤ → ℤ → Port D (List JobRef × Option Error)
  unfolding find_jobs
  get_jobs_by_status status limit offset = find_jobs (record {
    conditions = ("status = ?", text status ∷ []) ∷ [];
    order = some "created_at DESC";
    limit = some limit;
    offset = some offset;
  })

  abbrev pub pending_query : ℤ → Time → Query
  pending_query limit at = record {
    conditions =
        (
          "status IN ? AND scheduled_at <= ?",
          texts (status_pending ∷ status_scheduled ∷ []) ∷ instant at ∷ [],
        )
        ∷ [];
    order = some "priority DESC, scheduled_at ASC";
    limit = some limit;
    offset = none;
  }

  unfoldable pub get_pending_jobs : ℤ → Port D (List JobRef × Option Error)
  unfolding now find_jobs
  get_pending_jobs limit (r, d) = let (at, r') = now r in find_jobs (pending_query limit at) (r', d)

  unfoldable pub update_job_status : Uuid → Status → Port D (Option Error)
  unfolding now
  update_job_status job_id status (r, d) =
      let (at, r') = now r in
      let (result, d') =
        db.update_jobs (by_id job_id) (("status", text status) ∷ ("updated_at", instant at) ∷ [])
          d in
      (affected (not_found r job_id) result.error result.rows_affected, (r', d'))

  -- the loop of BatchInsertJobs
  unfoldable pub job_models : Runtime → List JobRef → Result (List JobModel)
  job_models r [] = ok []
  job_models r (p ∷ ps) =
      let rest = job_models r ps in
      let id = r.uuid_text (r.cells p).id in
      let prefix = str_append "failed to convert job " (str_append id " to model: ") in
      and_then (wrapped prefix (domain_to_job_model codec (r.cells p)))
        (λ model. and_then rest (λ models. ok (model ∷ models)))

  abbrev pub insert_models : Result (List JobModel) → Action D (Option Error)
  insert_models (failed err) d = (some err, d)
  insert_models (ok models) d = db.create_jobs_in_batches models 100 d

  unfoldable pub batch_insert_jobs : List JobRef → Port D (Option Error)
  unfolding job_models
  batch_insert_jobs ps (r, d) = let (err, d') = insert_models (job_models r ps) d in (err, (r, d'))
