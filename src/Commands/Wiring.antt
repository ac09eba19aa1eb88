-- ===== src/Commands/Wiring.antt =====
-- How cmd/schedular/main.go and cmd/worker/main.go put the parts together: the services of
-- internal/core/services/schedular.go and internal/core/services/processor.go and the handler of
-- internal/adapters/primary/rest_api/handler.go. The metrics and the logger are parts of the world.
use job_schedular_service.Base.{ℤ, String, Option, []}
use job_schedular_service.Domain.Job.{Uuid}
use job_schedular_service.Runtime.{Action}
use job_schedular_service.Ports.{StoragePort, QueuePort}
use job_schedular_service.Services.World.{World}
use job_schedular_service.Services.Processor.{JobHandler, Handlers}
use job_schedular_service.Rest
use job_schedular_service.Rest.{Bound, Response}
use job_schedular_service.Commands.{
  service_handlers, Endpoint, schedule_job, get_job, list_jobs, get_queue_stats,
}

pub record SchedulerService (T Q : Type 0) : Type 0 where
  pub storage : StoragePort T
  pub queue : QueuePort Q

-- NewSchedulerService
abbrev pub new_scheduler_service :
    {T Q : Type 0} → StoragePort T → QueuePort Q → SchedulerService T Q
new_scheduler_service storage queue = record { storage = storage; queue = queue }

pub record ProcessorService (T Q : Type 0) : Type 0 where
  pub storage : StoragePort T
  pub queue : QueuePort Q
  pub handlers : Handlers

-- NewProcessorService
abbrev pub new_processor_service :
    {T Q : Type 0} → StoragePort T → QueuePort Q → ProcessorService T Q
new_processor_service storage queue = record { storage = storage; queue = queue; handlers = [] }

-- Handler of the REST API
pub record RestHandler (T Q : Type 0) : Type 0 where
  pub scheduler : SchedulerService T Q
  pub processor : ProcessorService T Q

-- NewHandler
abbrev pub new_handler :
    {T Q : Type 0} → SchedulerService T Q → ProcessorService T Q → RestHandler T Q
new_handler scheduler processor = record { scheduler = scheduler; processor = processor }

-- the processor service with the two handlers that main registers
unfoldable pub processor_with_handlers :
    {T Q : Type 0} → StoragePort T → QueuePort Q → JobHandler → JobHandler → ProcessorService T Q
unfolding service_handlers
processor_with_handlers storage queue email payment = record (new_processor_service storage queue) {
  handlers = service_handlers email payment;
}

-- the REST handler of cmd/schedular/main.go
unfoldable pub http_handler :
    {T Q : Type 0} → StoragePort T → QueuePort Q → JobHandler → JobHandler → RestHandler T Q
unfolding processor_with_handlers
http_handler storage queue email payment =
    new_handler (new_scheduler_service storage queue)
      (processor_with_handlers storage queue email payment)

-- What gin makes of a request: the endpoint of its route with the arguments that the endpoint reads.
pub data Request : Type 0 where
  schedule_job_of : Bound → Request
  get_job_of : Option Uuid → Request
  list_jobs_of : (String → Option ℤ) → (String → String) → Request
  get_queue_stats_of : Request

abbrev pub endpoint : Request → Endpoint
endpoint (schedule_job_of body) = schedule_job
endpoint (get_job_of id) = get_job
endpoint (list_jobs_of atoi query) = list_jobs
endpoint get_queue_stats_of = get_queue_stats

unfoldable pub answer : {T Q : Type 0} → RestHandler T Q → Request → Action (World T Q) Response
answer handler (schedule_job_of body) =
    Rest.schedule_job handler.scheduler.storage handler.scheduler.queue body
answer handler (get_job_of id) = Rest.get_job handler.scheduler.storage handler.scheduler.queue id
answer handler (list_jobs_of atoi query) =
    Rest.list_jobs handler.scheduler.storage handler.scheduler.queue atoi query
answer handler get_queue_stats_of =
    Rest.get_queue_stats handler.scheduler.storage handler.scheduler.queue
