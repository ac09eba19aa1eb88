-- ===== src/Domain/Job.antt =====
-- internal/core/domain/job.go. The methods that change `*Job` return the new job; each reading of
-- `time.Now` that a method makes is an argument, in the order of the calls.
pub mod Transitions
use job_schedular_service.Base.{ℕ, ℤ, pos, String, Bool, Option, some, ◌&&◌, ltb_ℤ}
use job_schedular_service.Base.Map.{◌==◌, string_key}
use job_schedular_service.Domain.Priority.{Priority}
use job_schedular_service.Domain.Retry.{
  Time, Duration, RetryPolicy, attempts_left, increment_attempts,
}
use job_schedular_service.Domain.Retry

-- uuid.UUID, of which the code only tests the equality
abbrev pub Uuid : Type 0
Uuid = ℕ

-- error: the message of an error value
abbrev pub Error : Type 0
Error = String

abbrev pub JobType : Type 0
JobType = String

abbrev pub Status : Type 0
Status = String

-- The values of an `interface{}` that stands for JSON; a number is its literal.
mutual
  pub data Json : Type 0 where
    null : Json
    boolean : Bool → Json
    number : String → Json
    text : String → Json
    array : JsonItems → Json
    object : JsonFields → Json

  pub data JsonItems : Type 0 where
    no_items : JsonItems
    item : Json → JsonItems → JsonItems

  pub data JsonFields : Type 0 where
    no_fields : JsonFields
    field : String → Json → JsonFields → JsonFields

-- A map[string]interface{}, which may be nil.
abbrev pub Metadata : Type 0
Metadata = Option JsonFields

abbrev pub status_pending : Status
status_pending = "pending"

abbrev pub status_scheduled : Status
status_scheduled = "scheduled"

abbrev pub status_processing : Status
status_processing = "processing"

abbrev pub status_completed : Status
status_completed = "completed"

abbrev pub status_failed : Status
status_failed = "failed"

abbrev pub status_dead : Status
status_dead = "dead"

abbrev pub job_type_email : JobType
job_type_email = "email"

abbrev pub job_type_payment : JobType
job_type_payment = "payment"

abbrev pub job_type_data_export : JobType
job_type_data_export = "data_export"

pub record Job : Type 0 where
  pub id : Uuid
  pub job_type : JobType
  pub priority : Priority
  pub payload : String
  pub metadata : Metadata
  pub status : Status
  pub retry_policy : RetryPolicy
  pub created_at : Time
  pub updated_at : Time
  pub scheduled_at : Time
  pub processed_at : Option Time
  pub completed_at : Option Time
  pub failed_at : Option Time
  pub last_error : String
  pub worker_id : String

-- Job.CanRetry
unfoldable pub can_retry : Job → Bool
unfolding attempts_left
can_retry j = ltb_ℤ (pos 0) (attempts_left j.retry_policy) && j.status == status_failed

-- Job.MarkAsProcessing
unfoldable pub mark_as_processing : String → Time → Time → Job → Job
mark_as_processing worker_id now₁ now₂ j = record j {
  status = status_processing;
  worker_id = worker_id;
  updated_at = now₁;
  processed_at = some now₂;
}

-- Job.MarkAsCompleted
unfoldable pub mark_as_completed : Time → Time → Job → Job
mark_as_completed now₁ now₂ j = record j {
  status = status_completed;
  updated_at = now₁;
  completed_at = some now₂;
}

-- Job.MarkAsFailed; the third reading is that of IncrementAttempts
unfoldable pub mark_as_failed : Error → Time → Time → Time → Job → Job
unfolding increment_attempts
mark_as_failed err now₁ now₂ now₃ j = record j {
  status = status_failed;
  last_error = err;
  updated_at = now₁;
  failed_at = some now₂;
  retry_policy = increment_attempts now₃ j.retry_policy;
}

-- Job.MarkAsDead
unfoldable pub mark_as_dead : Time → Job → Job
mark_as_dead now j = record j { status = status_dead; updated_at = now }

-- Job.NextRetryAt
unfoldable pub next_retry_at : (ℤ → Duration) → Time → Job → Time
unfolding Retry.next_retry_at
next_retry_at overflow now j = Retry.next_retry_at overflow now j.retry_policy
