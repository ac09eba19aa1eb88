-- ===== src/Runner/Shutdown.antt =====
-- The end of Start of internal/adapters/primary/worker/runner.go.
use job_schedular_service.Base.{ℕ, ◌+◌, ◌≤◌, String, ◌≡◌, true, ◌⊎◌}
use job_schedular_service.Ports.{StoragePort, QueuePort}
use job_schedular_service.Services.World.{World}
use job_schedular_service.Services.Processor.{Handlers}
use job_schedular_service.Runner.{WorkerRunner, returned, Pool, Step, weight, ended, Run}
use job_schedular_service.Runner.Measure.{steps_left, in_flight}

module _ {T Q : Type 0} (storage : StoragePort T) (queue : QueuePort Q) (decimal : ℕ → String)
    (handlers : Handlers) (runner : WorkerRunner) where
  -- What a step does once the context is done: unless it is a heartbeat, it comes nearer to the
  -- end; no call of ProcessNextJob begins; and the queue changes only where one ends.
  abbrev ComesNearer : (s t : Pool T Q) → Step storage queue decimal handlers runner s t → Type 0
  ComesNearer s t step =
      (weight storage queue decimal handlers runner step + steps_left t ≤ steps_left s)
      × (t.cancelled ≡ true)
      × (ended storage queue decimal handlers runner step + in_flight t.loops ≡ in_flight s.loops)
      × ((1 ≤ ended storage queue decimal handlers runner step) ⊎ (t.world.queue ≡ s.world.queue))

  -- A run that ends, within the steps that are left.
  abbrev Ends : Pool T Q → Type 0
  Ends s =
      (t : Pool T Q) × (n : ℕ) × Run storage queue decimal handlers runner s t n
      × (t.progress ≡ returned)
