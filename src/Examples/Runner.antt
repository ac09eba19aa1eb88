-- ===== src/Examples/Runner.antt =====
-- Runs of internal/adapters/primary/worker/runner.go with the memory adapters.
use job_schedular_service.Base.{ℕ, pos, String, ◌≡◌, refl, true, false, [], ◌∷◌, All}
use job_schedular_service.Memory.Storage.{MemoryStorage, register_worker}
use job_schedular_service.Memory.Queue.{MemoryQueue}
use job_schedular_service.Memory.Ports.{memory_storage, memory_queue}
use job_schedular_service.Ports.{StoragePort, QueuePort}
use job_schedular_service.Runner.{
  WorkerRunner, new_worker_runner, polling, processing, stopped, waiting, returned, Pool, start,
  announce_shutdown, cancels, heartbeat_returns, returns, notices, joins, Run, here, processes,
  after_turn, process_jobs, instance_id, more, Reachable, begun, later,
}
use job_schedular_service.Runner.Quiet.{returned_quiet}
use job_schedular_service.Base.Map.{string_key}
use job_schedular_service.Examples.{same_order, world}

abbrev jobs : StoragePort MemoryStorage
jobs = memory_storage same_order same_order

abbrev lanes : QueuePort MemoryQueue
lanes = memory_queue same_order

-- Every number is written as 0.
abbrev zero_text : ℕ → String
zero_text n = "0"

abbrev single : WorkerRunner
single = new_worker_runner "w" "host" (pos 1)

abbrev cancelled_pool : Pool MemoryStorage MemoryQueue
cancelled_pool = record {
  world = world;
  cancelled = true;
  beating = true;
  loops = polling ∷ processing ∷ [];
  progress = waiting;
}

-- The call in flight ends after the context is done.
abbrev drained_pool : Pool MemoryStorage MemoryQueue
drained_pool =
    after_turn jobs lanes zero_text [] single (polling ∷ []) []
      (process_jobs jobs lanes zero_text [] single (instance_id jobs lanes zero_text [] single 1)
        world)
      cancelled_pool

abbrev draining : Run jobs lanes zero_text [] single cancelled_pool drained_pool 1
draining = more (processes (polling ∷ []) [] refl) here

abbrev started : Pool MemoryStorage MemoryQueue
started = (start jobs lanes zero_text [] single world).1

abbrev ended : Pool MemoryStorage MemoryQueue
ended = record started {
  world = (announce_shutdown jobs lanes zero_text [] single started.world).1;
  cancelled = true;
  beating = false;
  loops = stopped ∷ [];
  progress = returned;
}

ended-Reachable : Reachable jobs lanes zero_text [] single ended
unfolding start register_worker
ended-Reachable =
    later
      (later
        (later (later (later (begun world refl) cancels) (heartbeat_returns refl refl))
          (returns [] [] refl refl))
        (notices refl refl))
      (joins refl refl (refl, tt))

returned_quiet_example :
    (true ≡ true)
    × (false ≡ false)
    × All (λ loop. loop ≡ stopped) (stopped ∷ [])
    × (◌≡◌ {A = ℕ} 0 0)
    × (ended.world ≡ ended.world)
returned_quiet_example =
    returned_quiet jobs lanes zero_text [] single ended ended 0 ended-Reachable refl
      (more cancels here)
