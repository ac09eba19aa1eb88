-- ===== src/Postgres/RoundTrip.antt =====
-- SaveJob, UpdateJob and GetJob of internal/adapters/secondary/storage/postgres.go.
use mathlib.Core.Option
use job_schedular_service.Base.{
  ℕ, zero, suc, ◌≡◌, refl, ap, String, true, false, Option, none, some, Result, ok, failed, arith,
}
use job_schedular_service.Base.Map.{◌==◌, nat_key, string_key}
use job_schedular_service.Domain.Retry.{Time}
use job_schedular_service.Domain.Job.{Job, Error}
use job_schedular_service.Runtime.{JobRef, Runtime}
use job_schedular_service.Postgres.{JobModel, FieldCodec, Database}
use job_schedular_service.Postgres.Conversion.{
  payload_text, job_model, domain_to_job_model, job_model_to_domain,
}
use job_schedular_service.Postgres.Jobs.{
  save_job, update_job, save_model, update_model, affected, not_found,
}
use job_schedular_service.Postgres.Tables.{Documented, read_back}

-- A job as Postgres gives it back that was saved at a time.
abbrev pub kept : (String → String) → (Time → Time) → Time → Job → Job
kept jsonb micros at job = record job {
  payload = jsonb (payload_text job.payload);
  created_at = micros job.created_at;
  updated_at = micros at;
  scheduled_at = micros job.scheduled_at;
  processed_at = Option.map micros job.processed_at;
  completed_at = Option.map micros job.completed_at;
  failed_at = Option.map micros job.failed_at;
}

-- The texts of a job's metadata and retry policy, which can be read back.
pub record Texts (codec : FieldCodec) (jsonb : String → String) (job : Job) : Type 0 where
  pub metadata : String
  pub policy : String
  pub encodes_metadata : codec.marshal_metadata job.metadata ≡ ok metadata
  pub encodes_policy : codec.marshal_policy job.retry_policy ≡ ok policy
  pub metadata_text : jsonb metadata == "" ≡ false
  pub policy_text : jsonb policy == "" ≡ false
  pub decodes_metadata : codec.unmarshal_metadata (jsonb metadata) ≡ ok job.metadata
  pub decodes_policy : codec.unmarshal_policy (jsonb policy) ≡ ok job.retry_policy

module _ (codec : FieldCodec) (jsonb : String → String) (micros : Time → Time) (job : Job)
    (t : Texts codec jsonb job) where
  pub domain_to_job_model-texts :
      domain_to_job_model codec job ≡ ok (job_model job t.metadata t.policy)
  unfolding domain_to_job_model
  domain_to_job_model-texts = rw (t.encodes_metadata, t.encodes_policy)

  pub job_model_to_domain-read_back :
      (at : Time)
      → job_model_to_domain codec
          (read_back jsonb micros (record (job_model job t.metadata t.policy) { updated_at = at }))
        ≡ ok (kept jsonb micros at job)
  unfolding job_model_to_domain
  job_model_to_domain-read_back at =
      rw (t.metadata_text, t.decodes_metadata, t.policy_text, t.decodes_policy)

-- A write that affects a row is not reported as a missing job.
affected-suc :
    (e : Error) (err : Option Error) (n : ℕ) → (err ≡ none → n ≡ 1) → affected e err n ≡ err
affected-suc e (some err) n h = refl
affected-suc e none zero h = absurd (omega (arith, h refl))
affected-suc e none (suc n) h = refl

module _ {D : Type 0} (db : Database D) (codec : FieldCodec) (tables : Documented db) where
  update_model-save_model :
      (e : Error) (m : Result JobModel) (d : D)
      → update_model db codec e m d ≡ save_model db codec m d
  update_model-save_model e (failed err) d = refl
  update_model-save_model e (ok m) d =
      ap (λ err. (err, (db.save_job m d).1))
        (affected-suc e (db.save_job m d).0.error (db.save_job m d).0.rows_affected
          (tables.save_affected m d))

  -- With a database that does what is documented: UpdateJob does exactly what SaveJob does, with
  -- the same result, also for a job that was never saved.
  pub update_job-eq-save_job :
      (p : JobRef) (r : Runtime) (d : D) → update_job db codec p (r, d) ≡ save_job db codec p (r, d)
  unfolding update_job save_job
  update_job-eq-save_job p r d = rw (
      update_model-save_model (not_found r (r.cells p).id) (domain_to_job_model codec (r.cells p))
        d)

  module _ (p : JobRef) (r : Runtime) (d : D) (t : Texts codec tables.jsonb (r.cells p))
      (fits : tables.accepts (job_model (r.cells p) t.metadata t.policy) ≡ true) where
    abbrev saved : JobModel
    saved = job_model (r.cells p) t.metadata t.policy
