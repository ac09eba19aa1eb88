-- ===== src/Examples.antt =====
-- Concrete runs: small worlds to which the theorems apply.
mod Domain
mod Queue
mod Storage
mod Services
mod Next
mod Rest
pub mod Redis
pub mod Runner
pub mod Postgres
mod Handlers
mod Pipeline
use job_schedular_service.Base.{
  ℕ, suc, ◌+◌, ℤ, pos, negsuc, Bool, true, false, Option, none, some, List, [], ◌∷◌, String,
}
use job_schedular_service.Base.Map.{Map}
use job_schedular_service.Config.{Environment}
use job_schedular_service.Domain.Priority.{Priority, priority_high, priority_low}
use job_schedular_service.Domain.Retry.{Time, RetryPolicy, backoff_fixed}
use job_schedular_service.Domain.Job.{
  Job, Uuid, Status, status_pending, status_scheduled, job_type_email,
}
use job_schedular_service.Runtime.{Platform, JobRef, Runtime}
use job_schedular_service.Ports.{Worker}
use job_schedular_service.Memory.Queue.{MemoryQueue}
use job_schedular_service.Memory.Storage.{MemoryStorage}
use job_schedular_service.Services.World.{World}

abbrev pub empty_environment : Environment
empty_environment = record {
  getenv = λ key. "";
  atoi = λ text. none;
  parse_duration = λ text. none;
}

abbrev pub platform : Platform
platform = record {
  environment = empty_environment;
  uuid_text = λ id. "id";
  float_overflow = λ n. negsuc 9223372036854775807;
}

-- A policy of `max` attempts, `current` of them made, a second apart.
abbrev pub policy : ℤ → ℤ → RetryPolicy
policy max current = record {
  max_attempts = max;
  current_attempts = current;
  base_delay = pos 1000000000;
  max_delay = pos 60000000000;
  backoff_strategy = backoff_fixed;
  last_attempt_at = none;
}

abbrev pub email_job : Uuid → Priority → Status → RetryPolicy → Job
email_job id priority status retry_policy = record {
  id = id;
  job_type = job_type_email;
  priority = priority;
  payload = "{}";
  metadata = none;
  status = status;
  retry_policy = retry_policy;
  created_at = pos 0;
  updated_at = pos 0;
  scheduled_at = pos 0;
  processed_at = none;
  completed_at = none;
  failed_at = none;
  last_error = "";
  worker_id = "";
}

-- The job at the address p has the id p + 100, a high priority, and one attempt of three behind it.
abbrev pub runtime : Runtime
runtime = record {
  platform = platform;
  clock = λ n. pos (1000 + n);
  reads = 0;
  ids = λ n. n;
  minted = 0;
  cells = λ p. email_job (p + 100) priority_high status_pending (policy (pos 3) (pos 1));
  next = 7;
}

-- The job at the address 2 waits for the time 1000, the one at 3 for the time 5000.
abbrev pub waiting_queue : MemoryQueue
waiting_queue = record {
  queues = [];
  delayed_jobs = (102, pos 1000) ∷ (103, pos 5000) ∷ [];
  dead_letter = [];
  job_storage = (102, 2) ∷ (103, 3) ∷ [];
}

abbrev pub worker : Worker
worker = record {
  id = "w";
  hostname = "host";
  supported_types = job_type_email ∷ [];
  max_concurrent = pos 5;
  current_jobs = pos 0;
  status = "active";
  last_heartbeat = pos 10;
  registered_at = pos 10;
}

-- Two saved jobs and a worker.
abbrev pub storage : MemoryStorage
storage = record { jobs = (101, 1) ∷ (102, 2) ∷ []; history = []; workers = ("w", worker) ∷ [] }

abbrev pub world : World MemoryStorage MemoryQueue
world = record {
  runtime = runtime;
  storage = storage;
  queue = waiting_queue;
  metrics = [];
  logs = [];
}

abbrev pub same_order {ℓ} : {A : Type ℓ} → A → A
same_order a = a
