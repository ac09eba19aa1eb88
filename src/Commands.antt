-- ===== src/Commands.antt =====
-- cmd/schedular/main.go and cmd/worker/main.go: the handlers that both register, the routes, the
-- worker that is started, and the body of the loop that promotes the delayed jobs.
pub mod Wiring
pub mod Schedular
pub mod Shutdown
pub mod Ending
pub mod Worker
pub mod Cutoff
use job_schedular_service.Base.{pos, String, str_append, List, [], ◌∷◌}
use job_schedular_service.Base.Map.{string_key}
use job_schedular_service.Runtime.{Action, pure, ◌>>=◌}
use job_schedular_service.Ports.{QueuePort}
use job_schedular_service.Services.World.{World, on_queue}
use job_schedular_service.Services.Processor.{JobHandler, Handlers, register_handler}
use job_schedular_service.Runner.{WorkerRunner, new_worker_runner}

-- the calls of RegisterHandler: the email handler, then the payment handler
unfoldable pub service_handlers : JobHandler → JobHandler → Handlers
unfolding register_handler
service_handlers email payment = register_handler payment (register_handler email [])

-- the worker of cmd/worker/main.go
abbrev pub demo_runner : WorkerRunner
demo_runner = new_worker_runner "worker-1" "localhost" (pos 5)

-- The methods of the REST handler.
pub data Endpoint : Type 0 where
  schedule_job get_job list_jobs get_queue_stats : Endpoint

-- A route: the method, the path and the endpoint.
abbrev pub Route : Type 0
Route = String × String × Endpoint

-- router.Group
abbrev pub grouped : String → List Route → List Route
grouped prefix [] = []
grouped prefix ((method, path, endpoint) ∷ routes) =
    (method, str_append prefix path, endpoint) ∷ grouped prefix routes

unfoldable pub routes : List Route
routes = grouped "/api/v1" (
    ("POST", "/jobs", schedule_job)
    ∷ ("GET", "/jobs/:id", get_job)
    ∷ ("GET", "/jobs", list_jobs)
    ∷ ("GET", "/queues/stats", get_queue_stats)
    ∷ [])

-- the loop of cmd/schedular/main.go when the ticker fires; the error is not looked at
unfoldable pub promote_delayed : {T Q : Type 0} → QueuePort Q → Action (World T Q) (Unit {0})
promote_delayed queue = do err ← on_queue queue.process_delayed_jobs; pure tt
