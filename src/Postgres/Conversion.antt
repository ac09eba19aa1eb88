-- ===== src/Postgres/Conversion.antt =====
-- domainToJobModel and jobModelToDomain of internal/adapters/secondary/storage/postgres.go.
use job_schedular_service.Base.{
  pos, String, ◌||◌, none, [], Result, ok, failed, and_then, if◌then◌else◌,
}
use job_schedular_service.Base.Map.{◌==◌, string_key}
use job_schedular_service.Domain.Retry.{RetryPolicy}
use job_schedular_service.Domain.Job.{Job, Metadata}
use job_schedular_service.Runtime.{wrap_error}
use job_schedular_service.Postgres.{JobModel, FieldCodec}

-- The zero value of domain.RetryPolicy.
abbrev pub zero_policy : RetryPolicy
zero_policy = record {
  max_attempts = pos 0;
  current_attempts = pos 0;
  base_delay = pos 0;
  max_delay = pos 0;
  backoff_strategy = "";
  last_attempt_at = none;
}

abbrev pub wrapped : {A : Type 0} → String → Result A → Result A
wrapped prefix (failed err) = failed (wrap_error prefix err)
wrapped prefix (ok a) = ok a

abbrev pub payload_text : String → String
payload_text payload = if payload == "" || payload == "null" then "{}" else payload

abbrev pub job_model : Job → String → String → JobModel
job_model job metadata policy = record {
  id = job.id;
  job_type = job.job_type;
  priority = job.priority;
  payload = payload_text job.payload;
  metadata = metadata;
  status = job.status;
  retry_policy = policy;
  created_at = job.created_at;
  updated_at = job.updated_at;
  scheduled_at = job.scheduled_at;
  processed_at = job.processed_at;
  completed_at = job.completed_at;
  failed_at = job.failed_at;
  last_error = job.last_error;
  worker_id = job.worker_id;
  history = [];
}

abbrev pub domain_job : JobModel → Metadata → RetryPolicy → Job
domain_job model metadata policy = record {
  id = model.id;
  job_type = model.job_type;
  priority = model.priority;
  payload = model.payload;
  metadata = metadata;
  status = model.status;
  retry_policy = policy;
  created_at = model.created_at;
  updated_at = model.updated_at;
  scheduled_at = model.scheduled_at;
  processed_at = model.processed_at;
  completed_at = model.completed_at;
  failed_at = model.failed_at;
  last_error = model.last_error;
  worker_id = model.worker_id;
}

module _ (codec : FieldCodec) where
  -- domainToJobModel
  unfoldable pub domain_to_job_model : Job → Result JobModel
  domain_to_job_model job =
      and_then (wrapped "failed to marshal metadata: " (codec.marshal_metadata job.metadata))
        (λ metadata.
          and_then
            (wrapped "failed to marshal retry policy: " (codec.marshal_policy job.retry_policy))
            (λ policy. ok (job_model job metadata policy)))

  abbrev pub read_metadata : String → Result Metadata
  read_metadata text = if text == "" then ok none else codec.unmarshal_metadata text

  abbrev pub read_policy : String → Result RetryPolicy
  read_policy text = if text == "" then ok zero_policy else codec.unmarshal_policy text

  -- jobModelToDomain
  unfoldable pub job_model_to_domain : JobModel → Result Job
  job_model_to_domain model =
      and_then (wrapped "failed to unmarshal metadata: " (read_metadata model.metadata))
        (λ metadata.
          and_then (wrapped "failed to unmarshal retry policy: " (read_policy model.retry_policy))
            (λ policy. ok (domain_job model metadata policy)))
