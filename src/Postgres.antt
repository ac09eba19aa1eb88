-- ===== src/Postgres.antt =====
-- internal/adapters/secondary/storage/postgres.go, over the calls of gorm that it makes and the JSON
-- texts of metadata, retry policies and job types as parameters.
pub mod Conversion
pub mod Jobs
pub mod Workers
pub mod Tables
pub mod RoundTrip
pub mod Rows
pub mod Listing
pub mod WorkerTable
pub mod Sweep
use job_schedular_service.Base.{ℕ, ℤ, String, Option, none, some, List, [], ◌∷◌, Result, ok, failed}
use job_schedular_service.Domain.Priority.{Priority}
use job_schedular_service.Domain.Retry.{Time, RetryPolicy, Duration}
use job_schedular_service.Domain.Job.{Job, Uuid, JobType, Metadata, Error}
use job_schedular_service.Runtime.{Action, wrap_error}

pub record JobHistoryModel : Type 0 where
  pub id : String
  pub job_id : Uuid
  pub worker_id : String
  pub attempt_number : ℤ
  pub started_at : Time
  pub completed_at : Option Time
  pub status : String
  pub error_message : String
  pub duration : ℤ

pub record JobModel : Type 0 where
  pub id : Uuid
  pub job_type : String
  pub priority : Priority
  pub payload : String
  pub metadata : String
  pub status : String
  pub retry_policy : String
  pub created_at : Time
  pub updated_at : Time
  pub scheduled_at : Time
  pub processed_at : Option Time
  pub completed_at : Option Time
  pub failed_at : Option Time
  pub last_error : String
  pub worker_id : String
  pub history : List JobHistoryModel

pub record WorkerModel : Type 0 where
  pub id : String
  pub hostname : String
  pub supported_types : String
  pub max_concurrent : ℤ
  pub current_jobs : ℤ
  pub status : String
  pub last_heartbeat : Time
  pub registered_at : Time

-- TableName of the three models
abbrev pub jobs_table : String
jobs_table = "jobs"

abbrev pub job_history_table : String
job_history_table = "job_history"

abbrev pub workers_table : String
workers_table = "workers"

-- The arguments of a condition and the values of an update.
pub data Value : Type 0 where
  uuid : Uuid → Value
  text : String → Value
  number : ℤ → Value
  instant : Time → Value
  texts : List String → Value

-- A chain of gorm calls before Find: the conditions with their arguments, the text of Order, Limit
-- and Offset.
pub record Query : Type 0 where
  pub conditions : List (String × List Value)
  pub order : Option String
  pub limit : Option ℤ
  pub offset : Option ℤ

-- The result of First: the row, gorm.ErrRecordNotFound, or another error.
pub data First (A : Type 0) : Type 0 where
  found : A → First A
  missing : First A
  broken : Error → First A

-- The Error and the RowsAffected of a statement that writes.
pub record Written : Type 0 where
  pub error : Option Error
  pub rows_affected : ℕ

-- The calls on a *gorm.DB.
pub record Database (D : Type 0) : Type 0 where
  pub auto_migrate : Action D (Option Error)
  pub save_job : JobModel → Action D Written
  pub first_job : Query → Action D (First JobModel)
  pub find_jobs : Query → Action D (Result (List JobModel))
  pub update_jobs : List (String × List Value) → List (String × Value) → Action D Written
  pub create_jobs_in_batches : List JobModel → ℕ → Action D (Option Error)
  pub save_history : JobHistoryModel → Action D Written
  pub find_histories : Query → Action D (Result (List JobHistoryModel))
  pub save_worker : WorkerModel → Action D Written
  pub find_workers : Query → Action D (Result (List WorkerModel))
  pub update_workers : List (String × List Value) → List (String × Value) → Action D Written
  -- DB, and Close of what it returns
  pub sql_db : D → Option Error
  pub close : Action D (Option Error)

-- json.Marshal and json.Unmarshal of the fields that are kept as JSON
pub record FieldCodec : Type 0 where
  pub marshal_metadata : Metadata → Result String
  pub unmarshal_metadata : String → Result Metadata
  pub marshal_policy : RetryPolicy → Result String
  pub unmarshal_policy : String → Result RetryPolicy
  pub marshal_types : List JobType → Result String
  pub unmarshal_types : String → Result (List JobType)

-- migrate
unfoldable pub migrate : {D : Type 0} → Database D → Action D (Option Error)
migrate db = db.auto_migrate

-- NewPostgresStorage after the call of migrate
abbrev migrated : {D : Type 0} → Option Error × D → Result D
migrated (some err, d) = failed (wrap_error "failed to migrate schema: " err)
migrated (none, d) = ok d

-- NewPostgresStorage after the call of gorm.Open
abbrev connected : {D : Type 0} → Database D → Result D → Result D
connected db (failed err) = failed (wrap_error "failed to connect to database: " err)
connected db (ok d) = migrated (migrate db d)

-- NewPostgresStorage: the database of the storage; `connect` is gorm.Open with the Postgres driver
unfoldable pub new_postgres_storage :
    {D : Type 0} → (String → Result D) → Database D → String → Result D
unfolding migrate
new_postgres_storage connect db database_url = connected db (connect database_url)

-- Close
abbrev closed : {D : Type 0} → Database D → Option Error → Action D (Option Error)
closed db (some err) d = (some err, d)
closed db none d = db.close d

unfoldable pub close : {D : Type 0} → Database D → Action D (Option Error)
close db d = closed db (db.sql_db d) d
