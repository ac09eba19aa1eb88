-- ===== src/Examples/Postgres/Runs.antt =====
-- Runs of internal/adapters/secondary/storage/postgres.go on the table in memory.
use job_schedular_service.Base.{pos, ◌≡◌, refl, none, some, [], ◌∷◌, map, ok, select, drop}
use job_schedular_service.Base.Map.{nat_key}
use job_schedular_service.Domain.Priority.{priority_high}
use job_schedular_service.Domain.Job.{Job, Uuid, status_pending}
use job_schedular_service.Ports.{JobFilter}
use job_schedular_service.Runtime.{Runtime}
use job_schedular_service.Memory.Storage.{passes}
use job_schedular_service.Memory.Storage.Listing.{limited}
use job_schedular_service.Postgres.Conversion.{job_model, job_model_to_domain}
use job_schedular_service.Postgres.Jobs.{save_job, update_job, list_jobs}
use job_schedular_service.Postgres.RoundTrip.{Texts, update_job-eq-save_job}
use job_schedular_service.Postgres.Listing.{list_jobs-newest}
use job_schedular_service.Postgres.Rows.{Row, AreNewestFirst}
use job_schedular_service.Examples.{email_job, policy, runtime}
use job_schedular_service.Examples.Postgres.{
  Table, same_text, sort, table_db, table_documented, plain_codec,
}

-- A job whose times are not whole microseconds.
abbrev plain_job : Uuid → Job
plain_job id = record (email_job id priority_high status_pending (policy (pos 3) (pos 1))) {
  metadata = none;
  created_at = pos 1234567;
}

abbrev office : Runtime
office = record runtime { cells = λ p. plain_job p }

abbrev office_texts : Texts plain_codec same_text (plain_job 4)
office_texts = record {
  metadata = "null";
  policy = "policy";
  encodes_metadata = refl;
  encodes_policy = refl;
  metadata_text = refl;
  policy_text = refl;
  decodes_metadata = refl;
  decodes_policy = refl;
}

-- A table with another job.
abbrev one_job : Table
one_job = job_model (plain_job 5) "null" "policy" ∷ []

abbrev high_jobs : JobFilter
high_jobs = record {
  status = none;
  job_type = some "email";
  priority = some priority_high;
  limit = pos 1;
  offset = pos 0;
}

one_job_decodes :
    job_model_to_domain plain_codec (job_model (plain_job 5) "null" "policy") ≡ ok (plain_job 5)
unfolding job_model_to_domain
one_job_decodes = refl

abbrev one_row : Row plain_codec
one_row = record {
  model = job_model (plain_job 5) "null" "policy";
  job = plain_job 5;
  decodes = one_job_decodes;
}

update_job-eq-save_job_example :
    update_job table_db plain_codec 4 (office, one_job)
    ≡ save_job table_db plain_codec 4 (office, one_job)
update_job-eq-save_job_example =
    update_job-eq-save_job table_db plain_codec table_documented 4 office one_job

list_jobs-newest_example :
    let ((ps, err), (r', d')) = list_jobs table_db plain_codec high_jobs (office, one_job) in
    (err ≡ none)
    × (d' ≡ one_job)
    × (map r'.cells ps ≡ limited (pos 1) 0 (drop 0 (select (passes high_jobs) (plain_job 5 ∷ []))))
    × AreNewestFirst (map r'.cells ps)
unfolding table_documented sort
list_jobs-newest_example =
    list_jobs-newest table_db plain_codec table_documented high_jobs (one_row ∷ []) office one_job
      refl
