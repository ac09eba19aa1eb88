-- ===== src/Runner.antt =====
-- internal/adapters/primary/worker/runner.go: a worker's registration, the bodies of its loops, and its
-- goroutines as a step relation. A call of ProcessNextJob begins in one step and ends in a later one,
-- which changes the world and may come after the context is done.
pub mod Measure
pub mod Shutdown
pub mod Quiet
use job_schedular_service.Base.{
  ℕ, zero, suc, ◌+◌, ℤ, pos, negsuc, String, str_append, ◌≡◌, Bool, true, false, Option, none, some,
  List, [], ◌∷◌, ◌++◌, length, All,
}
use job_schedular_service.Domain.Priority.{
  Priority, priority_low, priority_medium, priority_high, priority_critical,
}
use job_schedular_service.Domain.Retry.{Time}
use job_schedular_service.Domain.Job.{Error, job_type_email, job_type_payment, job_type_data_export}
use job_schedular_service.Runtime.{Action, pure, ◌>>=◌, ◌>>◌, now, wrap_error}
use job_schedular_service.Ports.{Worker, StoragePort, QueuePort, Level, string_field, int_field}
use job_schedular_service.Services.World.{World, on_runtime, on_storage, log}
use job_schedular_service.Services.Processor.{Handlers, process_next_job}

pub record WorkerRunner : Type 0 where
  pub worker_id : String
  pub hostname : String
  pub max_concurrent : ℤ
  pub priorities : List Priority
  pub current_jobs : ℤ

-- NewWorkerRunner
abbrev pub new_worker_runner : String → String → ℤ → WorkerRunner
new_worker_runner worker_id hostname max_concurrent = record {
  worker_id = worker_id;
  hostname = hostname;
  max_concurrent = max_concurrent;
  priorities = priority_critical ∷ priority_high ∷ priority_medium ∷ priority_low ∷ [];
  current_jobs = pos 0;
}

-- the worker that Start registers
abbrev pub registration : WorkerRunner → Time → Time → Worker
registration runner now₁ now₂ = record {
  id = runner.worker_id;
  hostname = runner.hostname;
  supported_types = job_type_email ∷ job_type_payment ∷ job_type_data_export ∷ [];
  max_concurrent = runner.max_concurrent;
  current_jobs = pos 0;
  status = "active";
  last_heartbeat = now₁;
  registered_at = now₂;
}

-- A loop of processJobs is before its select, in a call of ProcessNextJob, sleeps for a second, or
-- has returned.
pub data Loop : Type 0 where
  polling processing sleeping stopped : Loop

-- Start waits for the context, waits for the goroutines, or has returned.
pub data Progress : Type 0 where
  waiting joining returned : Progress

pub record Pool (T Q : Type 0) : Type 0 where
  pub world : World T Q
  pub cancelled : Bool
  pub beating : Bool
  pub loops : List Loop
  pub progress : Progress

-- the loop of Start that starts the goroutines of processJobs, none for a negative number
unfoldable pub polling_loops : ℕ → List Loop
polling_loops zero = []
polling_loops (suc n) = polling ∷ polling_loops n

unfoldable pub goroutines : ℤ → List Loop
unfolding polling_loops
goroutines (pos n) = polling_loops n
goroutines (negsuc n) = []

-- `decimal` is the text that %d gives.
module _ {T Q : Type 0} (storage : StoragePort T) (queue : QueuePort Q) (decimal : ℕ → String)
    (handlers : Handlers) (runner : WorkerRunner) where
  -- Start after the call of RegisterWorker, up to the start of the goroutines
  unfoldable pub announce : Option Error → Action (World T Q) (Option Error)
  announce (some err) = pure (some (wrap_error "failed to register worker: " err))
  announce none = do
    log Level.info "Worker started" (
        string_field "worker_id" runner.worker_id
        ∷ string_field "hostname" runner.hostname
        ∷ int_field "max_concurrent" runner.max_concurrent
        ∷ [])
    pure none

  unfoldable pub register : Action (World T Q) (Option Error)
  unfolding now announce
  register = do
    t₁ ← on_runtime now
    t₂ ← on_runtime now
    err ← on_storage (storage.register_worker (registration runner t₁ t₂))
    announce err

  -- the body of the loop of sendHeartbeat, when the ticker fires
  unfoldable pub report : Option Error → Action (World T Q) (Unit {0})
  report none = pure tt
  report (some err) =
      log Level.error "Failed to send heartbeat"
        (string_field "worker_id" runner.worker_id ∷ string_field "error" err ∷ [])

  unfoldable pub send_heartbeat : Action (World T Q) (Unit {0})
  unfolding report
  send_heartbeat = do
    err ← on_storage (storage.update_worker_heartbeat runner.worker_id)
    report err

  -- the body of the loop of processJobs, when the context is not done
  abbrev pub next_state : Option Error → Loop
  next_state none = polling
  next_state (some err) = sleeping

  unfoldable pub process_jobs : String → Action (World T Q) Loop
  process_jobs worker_instance_id = do
    err ← process_next_job storage queue handlers worker_instance_id runner.priorities
    pure (next_state err)

  abbrev pub instance_id : ℕ → String
  instance_id n = str_append runner.worker_id (str_append "-" (decimal n))

  -- Start after the registration: it returns with an error, or the goroutines run.
  abbrev pub running : Option Error → World T Q → Pool T Q
  running (some err) w = record {
    world = w;
    cancelled = false;
    beating = false;
    loops = [];
    progress = returned;
  }
  running none w = record {
    world = w;
    cancelled = false;
    beating = true;
    loops = goroutines runner.max_concurrent;
    progress = waiting;
  }

  unfoldable pub start : World T Q → Option Error × Pool T Q
  unfolding register goroutines
  start w = let (err, w') = register w in (err, running err w')

  -- Start when the context is done
  unfoldable pub announce_shutdown : Action (World T Q) (Unit {0})
  announce_shutdown =
      log Level.info "Worker shutting down" (string_field "worker_id" runner.worker_id ∷ [])

  abbrev pub after_turn : List Loop → List Loop → Loop × World T Q → Pool T Q → Pool T Q
  after_turn before after (loop, w) s = record s { world = w; loops = before ++ loop ∷ after }

  -- `s.loops ≡ before ++ x ∷ after` says that the goroutine with the number `length before` is at x.
  pub data Step (s : Pool T Q) : Pool T Q → Type 0 where
    cancels : Step s (record s { cancelled = true })
    beats : s.beating ≡ true → Step s (record s { world = (send_heartbeat s.world).1 })
    heartbeat_returns :
        s.beating ≡ true → s.cancelled ≡ true → Step s (record s { beating = false })
    -- the select finds that the context is not done
    begins :
        (before after : List Loop)
        → s.loops ≡ before ++ polling ∷ after
        → s.cancelled ≡ false
        → Step s (record s { loops = before ++ processing ∷ after })
    processes :
        (before after : List Loop)
        → s.loops ≡ before ++ processing ∷ after
        → Step s (after_turn before after (process_jobs (instance_id (length before)) s.world) s)
    wakes :
        (before after : List Loop)
        → s.loops ≡ before ++ sleeping ∷ after
        → Step s (record s { loops = before ++ polling ∷ after })
    returns :
        (before after : List Loop)
        → s.loops ≡ before ++ polling ∷ after
        → s.cancelled ≡ true
        → Step s (record s { loops = before ++ stopped ∷ after })
    notices :
        s.progress ≡ waiting
        → s.cancelled ≡ true
        → Step s (record s { world = (announce_shutdown s.world).1; progress = joining })
    joins :
        s.progress ≡ joining
        → s.beating ≡ false
        → All (λ loop. loop ≡ stopped) s.loops
        → Step s (record s { progress = returned })

  -- A run of the worker from a state, with the number of its steps that are neither a heartbeat nor a
  -- cancellation.
  abbrev pub weight : {s t : Pool T Q} → Step s t → ℕ
  weight cancels = 0
  weight (beats h) = 0
  weight (heartbeat_returns h k) = 1
  weight (begins before after h k) = 1
  weight (processes before after h) = 1
  weight (wakes before after h) = 1
  weight (returns before after h k) = 1
  weight (notices h k) = 1
  weight (joins h k all) = 1

  -- How many calls of ProcessNextJob a step ends.
  abbrev pub ended : {s t : Pool T Q} → Step s t → ℕ
  ended cancels = 0
  ended (beats h) = 0
  ended (heartbeat_returns h k) = 0
  ended (begins before after h k) = 0
  ended (processes before after h) = 1
  ended (wakes before after h) = 0
  ended (returns before after h k) = 0
  ended (notices h k) = 0
  ended (joins h k all) = 0

  pub data Run : Pool T Q → Pool T Q → ℕ → Type 0 where
    here : {s : Pool T Q} → Run s s 0
    more : {s t u : Pool T Q} {n : ℕ} (step : Step s t) → Run t u n → Run s u (weight step + n)

  -- How many calls of ProcessNextJob end in a run.
  abbrev pub calls_ended : {s t : Pool T Q} {n : ℕ} → Run s t n → ℕ
  calls_ended here = 0
  calls_ended (more step run) = ended step + calls_ended run

  pub data Reachable : Pool T Q → Type 0 where
    begun : (w : World T Q) → (start w).0 ≡ none → Reachable (start w).1
    later : {s t : Pool T Q} → Reachable s → Step s t → Reachable t
