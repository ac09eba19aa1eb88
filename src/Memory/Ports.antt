-- ===== src/Memory/Ports.antt =====
-- The memory adapters as the ports of internal/core/ports. `jobs_order`, `workers_order` and
-- `delayed_order` are the orders in which Go ranges over the three maps.
use job_schedular_service.Base.{String}
use job_schedular_service.Base.Map.{Map}
use job_schedular_service.Domain.Retry.{Time}
use job_schedular_service.Domain.Job.{Uuid}
use job_schedular_service.Ports.{StoragePort, QueuePort, Worker}
use job_schedular_service.Runtime.{JobRef}
use job_schedular_service.Memory.Queue
use job_schedular_service.Memory.Queue.{MemoryQueue}
use job_schedular_service.Memory.Storage
use job_schedular_service.Memory.Storage.{MemoryStorage}

abbrev pub memory_storage :
    (Map Uuid JobRef → Map Uuid JobRef)
    → (Map String Worker → Map String Worker)
    → StoragePort MemoryStorage
memory_storage jobs_order workers_order = record {
  save_job = Storage.save_job;
  get_job = Storage.get_job;
  update_job = Storage.update_job;
  list_jobs = Storage.list_jobs jobs_order;
  save_job_history = Storage.save_job_history;
  get_job_history = Storage.get_job_history;
  register_worker = Storage.register_worker;
  update_worker_heartbeat = Storage.update_worker_heartbeat;
  get_active_workers = Storage.get_active_workers workers_order;
  deactivate_stale_workers = Storage.deactivate_stale_workers;
}

abbrev pub memory_queue : (Map Uuid Time → Map Uuid Time) → QueuePort MemoryQueue
memory_queue delayed_order = record {
  enqueue = Queue.enqueue;
  dequeue = Queue.dequeue;
  enqueue_delayed = Queue.enqueue_delayed;
  move_to_dead_letter = Queue.move_to_dead_letter;
  get_queue_stats = Queue.get_queue_stats;
  process_delayed_jobs = Queue.process_delayed_jobs delayed_order;
}
