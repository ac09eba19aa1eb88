-- ===== src/Runner/Quiet.antt =====
-- What Start of internal/adapters/primary/worker/runner.go leaves behind when it returns.
use job_schedular_service.Base.{
  ℕ, ◌≡◌, refl, ◌∙◌, String, true, false, none, List, ◌∷◌, ◌++◌, All, arith, inl, inr, ◌⊎◌,
}
use job_schedular_service.Ports.{StoragePort, QueuePort}
use job_schedular_service.Services.World.{World}
use job_schedular_service.Services.Processor.{Handlers}
use job_schedular_service.Runner.{
  WorkerRunner, Loop, polling, processing, sleeping, stopped, waiting, returned, Pool, start, Step,
  cancels, beats, heartbeat_returns, begins, processes, wakes, returns, notices, joins, weight, Run,
  here, more, Reachable, begun, later,
}
use job_schedular_service.Runner.Measure.{no_loop_left}

-- Start goes on only when the context is done, and returns when nothing runs.
pub record IsOrderly {T Q : Type 0} (s : Pool T Q) : Type 0 where
  pub goes_on : (s.progress ≡ waiting) ⊎ (s.cancelled ≡ true)
  pub no_beat : s.progress ≡ returned → s.beating ≡ false
  pub no_loop : s.progress ≡ returned → All (λ loop. loop ≡ stopped) s.loops

module _ {T Q : Type 0} (storage : StoragePort T) (queue : QueuePort Q) (decimal : ℕ → String)
    (handlers : Handlers) (runner : WorkerRunner) where
  start-IsOrderly :
      (w : World T Q)
      → (start storage queue decimal handlers runner w).0 ≡ none
      → IsOrderly (start storage queue decimal handlers runner w).1
  unfolding start
  start-IsOrderly w h = rw h (record { goes_on = inl refl; no_beat = λ e. cc; no_loop = λ e. cc })

  -- While a loop has not returned, neither has Start.
  loop_runs :
      (s : Pool T Q) (before after : List Loop) (loop : Loop)
      → IsOrderly s
      → s.loops ≡ before ++ loop ∷ after
      → (loop ≡ stopped → polling ≡ stopped)
      → s.progress ≡ returned
      → polling ≡ stopped
  loop_runs s before after loop h e f r = f (no_loop_left before after s.loops loop e (h.no_loop r))

  Step-IsOrderly :
      (s t : Pool T Q) → Step storage queue decimal handlers runner s t → IsOrderly s → IsOrderly t
  Step-IsOrderly s _ cancels h = record {
    goes_on = inr refl;
    no_beat = h.no_beat;
    no_loop = h.no_loop;
  }
  Step-IsOrderly s _ (beats b) h = record {
    goes_on = h.goes_on;
    no_beat = h.no_beat;
    no_loop = h.no_loop;
  }
  Step-IsOrderly s _ (heartbeat_returns b c) h = record {
    goes_on = h.goes_on;
    no_beat = λ e. refl;
    no_loop = h.no_loop;
  }
  Step-IsOrderly s _ (begins before after e c) h = record {
    goes_on = h.goes_on;
    no_beat = h.no_beat;
    no_loop = λ r. absurd (let f = loop_runs s before after polling h e (λ k. k) r in cc);
  }
  Step-IsOrderly s _ (processes before after e) h = record {
    goes_on = h.goes_on;
    no_beat = h.no_beat;
    no_loop = λ r. absurd (let f = loop_runs s before after processing h e (λ k. cc) r in cc);
  }
  Step-IsOrderly s _ (wakes before after e) h = record {
    goes_on = h.goes_on;
    no_beat = h.no_beat;
    no_loop = λ r. absurd (let f = loop_runs s before after sleeping h e (λ k. cc) r in cc);
  }
  Step-IsOrderly s _ (returns before after e c) h = record {
    goes_on = h.goes_on;
    no_beat = h.no_beat;
    no_loop = λ r. absurd (let f = loop_runs s before after polling h e (λ k. k) r in cc);
  }
  Step-IsOrderly s _ (notices e c) h = record {
    goes_on = inr c;
    no_beat = λ r. cc;
    no_loop = λ r. cc;
  }
  Step-IsOrderly s _ (joins e b all) h = record {
    goes_on = elim h.goes_on [ inl w ↦ cc | inr c ↦ inr c ];
    no_beat = λ r. b;
    no_loop = λ r. all;
  }

  Reachable-IsOrderly :
      {s : Pool T Q} → Reachable storage queue decimal handlers runner s → IsOrderly s
  Reachable-IsOrderly (begun w h) = start-IsOrderly w h
  Reachable-IsOrderly (later r step) = Step-IsOrderly _ _ step (Reachable-IsOrderly r)

  quiet-Step :
      (s t : Pool T Q)
      → IsOrderly s
      → s.progress ≡ returned
      → (step : Step storage queue decimal handlers runner s t)
      → (weight storage queue decimal handlers runner step ≡ 0)
        × (t.world ≡ s.world)
        × (t.progress ≡ returned)
  quiet-Step s _ h r cancels = (refl, refl, r)
  quiet-Step s _ h r (beats b) = cc (h.no_beat r)
  quiet-Step s _ h r (heartbeat_returns b c) = cc (h.no_beat r)
  quiet-Step s _ h r (begins before after e c) =
      let f = loop_runs s before after polling h e (λ k. k) r in cc
  quiet-Step s _ h r (processes before after e) =
      let f = loop_runs s before after processing h e (λ k. cc) r in cc
  quiet-Step s _ h r (wakes before after e) =
      let f = loop_runs s before after sleeping h e (λ k. cc) r in cc
  quiet-Step s _ h r (returns before after e c) =
      let f = loop_runs s before after polling h e (λ k. k) r in cc
  quiet-Step s _ h r (notices e c) = cc
  quiet-Step s _ h r (joins e b all) = cc

  quiet-Run :
      (s t : Pool T Q) (n : ℕ)
      → IsOrderly s
      → s.progress ≡ returned
      → Run storage queue decimal handlers runner s t n
      → (n ≡ 0) × (t.world ≡ s.world)
  quiet-Run s _ _ h r here = (refl, refl)
  quiet-Run s u _ h r (more step run) =
      let first = quiet-Step s _ h r step in
      let rest = quiet-Run _ u _ (Step-IsOrderly s _ step h) first.2 run in
      (omega (arith, first.0, rest.0), rest.1 ∙ first.1)

  -- When Start of a worker that could be registered has returned, the context is done, the
  -- heartbeat and all goroutines of processJobs have returned, and whatever is run from there
  -- changes nothing in the world.
  pub returned_quiet :
      (s t : Pool T Q) (n : ℕ)
      → Reachable storage queue decimal handlers runner s
      → s.progress ≡ returned
      → Run storage queue decimal handlers runner s t n
      → (s.cancelled ≡ true)
        × (s.beating ≡ false)
        × All (λ loop. loop ≡ stopped) s.loops
        × (n ≡ 0)
        × (t.world ≡ s.world)
  returned_quiet s t n h r run =
      let orderly = Reachable-IsOrderly h in
      let quiet = quiet-Run s t n orderly r run in
      (
        elim orderly.goes_on [ inl w ↦ cc | inr c ↦ c ],
        orderly.no_beat r,
        orderly.no_loop r,
        quiet.0,
        quiet.1,
      )
