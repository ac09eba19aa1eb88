-- ===== src/Rest.antt =====
-- internal/adapters/primary/rest_api/handler.go. A handler's response is its status code and its
-- body. What gin makes of the request is an argument: the decoded body, the path's parameter, the
-- query.
pub mod Responses
use job_schedular_service.Base.{ℕ, ℤ, pos, String, Bool, Option, none, some, List, if◌then◌else◌}
use job_schedular_service.Base.Map.{◌==◌, string_key}
use job_schedular_service.Domain.Job.{Uuid, Error}
use job_schedular_service.Runtime.{Action, pure, ◌>>=◌, JobRef}
use job_schedular_service.Ports.{StoragePort, QueuePort, JobFilter, QueueStats}
use job_schedular_service.Services.World.{World}
use job_schedular_service.Services.Scheduler
use job_schedular_service.Services.Scheduler.{ScheduleJobRequest}

-- gin.H{"error": ...}, a job, gin.H{"jobs": ...}, the statistics
pub data Body : Type 0 where
  failure : Error → Body
  one_job : Option JobRef → Body
  job_list : List JobRef → Body
  queue_stats : QueueStats → Body

pub record Response : Type 0 where
  pub code : ℕ
  pub body : Body

abbrev pub respond : ℕ → Body → Response
respond code body = record { code = code; body = body }

-- strconv.Atoi of a value of the query, which counts only if it is not empty and a number
unfoldable pub number_or : (String → Option ℤ) → String → ℤ → ℤ
number_or atoi text default_value =
    if text == "" then default_value else elim (atoi text) [ some n ↦ n | none ↦ default_value ]

-- a value of the query that counts if it is not empty
abbrev pub given : String → Option String
given text = if text == "" then none else some text

-- the filter that ListJobs builds
unfoldable pub list_filter : (String → Option ℤ) → (String → String) → JobFilter
unfolding number_or
list_filter atoi query = record {
  status = given (query "status");
  job_type = given (query "type");
  priority = none;
  limit = number_or atoi (query "limit") (pos 50);
  offset = number_or atoi (query "offset") (pos 0);
}

-- the response by the results of the call
abbrev pub scheduled : Option JobRef × Option Error → Response
scheduled (job, none) = respond 201 (one_job job)
scheduled (job, some err) = respond 500 (failure err)

abbrev pub found : Option JobRef × Option Error → Response
found (job, none) = respond 200 (one_job job)
found (job, some err) = respond 404 (failure "job not found")

abbrev pub listed : List JobRef × Option Error → Response
listed (jobs, none) = respond 200 (job_list jobs)
listed (jobs, some err) = respond 500 (failure err)

abbrev pub counted : QueueStats × Option Error → Response
counted (stats, none) = respond 200 (queue_stats stats)
counted (stats, some err) = respond 500 (failure err)

-- the result of c.ShouldBindJSON
pub data Bound : Type 0 where
  invalid : Error → Bound
  bound : ScheduleJobRequest → Bound

module _ {T Q : Type 0} (storage : StoragePort T) (queue : QueuePort Q) where
  unfoldable pub schedule_job : Bound → Action (World T Q) Response
  schedule_job (invalid err) = pure (respond 400 (failure err))
  schedule_job (bound req) = do
    result ← Scheduler.schedule_job storage queue req
    pure (scheduled result)

  -- `id` is the result of uuid.Parse, where none is an error
  unfoldable pub get_job : Option Uuid → Action (World T Q) Response
  get_job none = pure (respond 400 (failure "invalid job ID"))
  get_job (some id) = do result ← Scheduler.get_job storage queue id; pure (found result)

  unfoldable pub list_jobs : (String → Option ℤ) → (String → String) → Action (World T Q) Response
  unfolding list_filter
  list_jobs atoi query = do
    result ← Scheduler.list_jobs storage queue (list_filter atoi query)
    pure (listed result)

  unfoldable pub get_queue_stats : Action (World T Q) Response
  get_queue_stats = do result ← Scheduler.get_queue_stats storage queue; pure (counted result)
