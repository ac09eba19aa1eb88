-- ===== src/Ports.antt =====
-- internal/core/ports: the data that pass through the ports, and the ports as records of operations.
use job_schedular_service.Base.{ℕ, ℤ, String, Option, List}
use job_schedular_service.Base.Map.{Map}
use job_schedular_service.Domain.Priority.{Priority}
use job_schedular_service.Domain.Retry.{Time, Duration}
use job_schedular_service.Domain.Job.{Uuid, JobType, Status, Error}
use job_schedular_service.Runtime.{Action, JobRef, Runtime}

-- A nil pointer in a filter lets every job through.
pub record JobFilter : Type 0 where
  pub status : Option Status
  pub job_type : Option JobType
  pub priority : Option Priority
  pub limit : ℤ
  pub offset : ℤ

pub record JobHistory : Type 0 where
  pub id : String
  pub job_id : Uuid
  pub worker_id : String
  pub attempt_number : ℤ
  pub started_at : Time
  pub completed_at : Option Time
  pub status : String
  pub error : String
  pub duration : Duration

pub record Worker : Type 0 where
  pub id : String
  pub hostname : String
  pub supported_types : List JobType
  pub max_concurrent : ℤ
  pub current_jobs : ℤ
  pub status : String
  pub last_heartbeat : Time
  pub registered_at : Time

pub record QueueStats : Type 0 where
  pub active_jobs : Map Priority ℕ
  pub delayed_jobs : ℕ
  pub dead_letter_jobs : ℕ

-- MetricsPort of internal/core/ports/metrics.go: its calls. The services make the first five.
pub data Metric : Type 0 where
  jobs_scheduled : JobType → Priority → Metric
  jobs_completed : JobType → Priority → Duration → Metric
  jobs_failed : JobType → Priority → Error → Metric
  jobs_retried : JobType → Priority → Metric
  jobs_dead_lettered : JobType → Priority → Metric
  queue_length : Priority → ℤ → Metric
  delayed_queue_length : ℤ → Metric
  dead_letter_queue_length : ℤ → Metric
  active_workers : ℤ → Metric
  worker_heartbeats : String → Metric

-- LoggerPort and Field of internal/core/ports/logger.go
pub data Level : Type 0 where
  debug info warn error fatal : Level

pub data Value : Type 0 where
  text : String → Value
  int : ℤ → Value
  duration : Duration → Value

pub record Field : Type 0 where
  pub key : String
  pub value : Value

pub record LogEntry : Type 0 where
  pub level : Level
  pub message : String
  pub fields : List Field

-- ports.String, ports.Int and ports.Duration
abbrev pub string_field : String → String → Field
string_field key value = record { key = key; value = text value }

abbrev pub int_field : String → ℤ → Field
int_field key value = record { key = key; value = int value }

abbrev pub duration_field : String → Duration → Field
duration_field key value = record { key = key; value = duration value }

-- What a port's method does to the shared runtime and to the adapter's own state.
abbrev pub Port : Type 0 → Type 0 → Type 0
Port T A = Action (Runtime × T) A

pub record StoragePort (T : Type 0) : Type 0 where
  pub save_job : JobRef → Port T (Option Error)
  pub get_job : Uuid → Port T (Option JobRef × Option Error)
  pub update_job : JobRef → Port T (Option Error)
  pub list_jobs : JobFilter → Port T (List JobRef × Option Error)
  pub save_job_history : JobHistory → Port T (Option Error)
  pub get_job_history : Uuid → Port T (List JobHistory × Option Error)
  pub register_worker : Worker → Port T (Option Error)
  pub update_worker_heartbeat : String → Port T (Option Error)
  pub get_active_workers : Port T (List Worker × Option Error)
  pub deactivate_stale_workers : Duration → Port T (Option Error)

pub record QueuePort (Q : Type 0) : Type 0 where
  pub enqueue : JobRef → Port Q (Option Error)
  pub dequeue : List Priority → Port Q (Option JobRef × Option Error)
  pub enqueue_delayed : JobRef → Time → Port Q (Option Error)
  pub move_to_dead_letter : JobRef → Port Q (Option Error)
  pub get_queue_stats : Port Q (QueueStats × Option Error)
  pub process_delayed_jobs : Port Q (Option Error)
