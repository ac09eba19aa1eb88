-- ===== src/Commands/Worker.antt =====
-- main of cmd/worker/main.go as a step relation: main itself and the worker that its goroutine starts.
use job_schedular_service.Base.{ℕ, ◌≡◌, ◌≢◌, String, true, Option, none, some}
use job_schedular_service.Domain.Job.{Error}
use job_schedular_service.Ports.{StoragePort, QueuePort}
use job_schedular_service.Services.World.{World}
use job_schedular_service.Services.Processor.{Handlers, JobHandler}
use job_schedular_service.Runner as Runner
use job_schedular_service.Runner.{
  Pool, start, register, running, waiting, joining, cancels, beats, heartbeat_returns, processes,
  wakes, returns, notices, joins,
}
use job_schedular_service.Commands.{demo_runner}
use job_schedular_service.Commands.Wiring.{processor_with_handlers}

-- main waits for a signal, has called cancel(), or the process is over.
pub data Phase : Type 0 where
  awaiting_signal leaving exited : Phase

pub record Process (T Q : Type 0) : Type 0 where
  pub pool : Pool T Q
  pub phase : Phase

-- log.Fatalf ends the process if Start returns an error.
abbrev pub phase_after_start : Option Error → Phase
phase_after_start none = awaiting_signal
phase_after_start (some err) = exited

module _ {T Q : Type 0} (storage : StoragePort T) (queue : QueuePort Q) (decimal : ℕ → String)
    (email payment : JobHandler) where
  abbrev pub handlers : Handlers
  handlers = (processor_with_handlers storage queue email payment).handlers

  -- main up to the wait for a signal, with the start of the worker
  unfoldable pub launch : World T Q → Process T Q
  unfolding start processor_with_handlers
  launch w =
      let (err, pool) = start storage queue decimal handlers demo_runner w in
      record { pool = pool; phase = phase_after_start err }

  pub data Step (s : Process T Q) : Process T Q → Type 0 where
    -- the goroutines of the worker, which do not cancel the context
    works :
        (pool : Pool T Q)
        → s.phase ≢ exited
        → Runner.Step storage queue decimal handlers demo_runner s.pool pool
        → pool.cancelled ≡ s.pool.cancelled
        → Step s (record s { pool = pool })
    -- <-sigChan and cancel()
    signals :
        s.phase ≡ awaiting_signal
        → Step s (record { pool = record s.pool { cancelled = true }; phase = leaving })
    -- main returns
    exits : s.phase ≡ leaving → Step s (record s { phase = exited })

  pub data Reachable : Process T Q → Type 0 where
    begun : (w : World T Q) → Reachable (launch w)
    later : {s t : Process T Q} → Reachable s → Step s t → Reachable t
