-- ===== src/Commands/Cutoff.antt =====
-- The end of main of cmd/worker/main.go.
use job_schedular_service.Base.{ℕ, ◌≡◌, refl, ◌∙◌, String, true, false, Option, none, some, subst}
use job_schedular_service.Domain.Job.{Error}
use job_schedular_service.Ports.{StoragePort, QueuePort}
use job_schedular_service.Services.World.{World}
use job_schedular_service.Services.Processor.{JobHandler}
use job_schedular_service.Runner as Runner
use job_schedular_service.Runner.{
  Pool, start, register, running, waiting, joining, cancels, beats, heartbeat_returns, begins,
  processes, wakes, returns, notices, joins,
}
use job_schedular_service.Commands.{demo_runner}
use job_schedular_service.Commands.Worker.{
  Phase, awaiting_signal, leaving, exited, Process, phase_after_start, handlers, launch, Step,
  works, signals, exits, Reachable, begun, later,
}

-- While main waits for a signal, the worker is at work.
abbrev pub IsAtWork : {T Q : Type 0} → Phase → Pool T Q → Type 0
IsAtWork awaiting_signal pool =
    (pool.cancelled ≡ false) × (pool.progress ≡ waiting) × (pool.beating ≡ true)
IsAtWork leaving pool = Unit {0}
IsAtWork exited pool = Unit {0}

module _ {T Q : Type 0} (storage : StoragePort T) (queue : QueuePort Q) (decimal : ℕ → String)
    (email payment : JobHandler) where
  running-IsAtWork :
      (err : Option Error) (w : World T Q)
      → IsAtWork (phase_after_start err) (
          running storage queue decimal
            (handlers storage queue decimal email payment)
            demo_runner
            err
            w)
  running-IsAtWork none w = (refl, refl, refl)
  running-IsAtWork (some err) w = tt

  Step-keeps :
      (s t : Pool T Q)
      → Runner.Step storage queue decimal
          (handlers storage queue decimal email payment)
          demo_runner
          s
          t
      → t.cancelled ≡ s.cancelled
      → (s.cancelled ≡ false) × (s.progress ≡ waiting) × (s.beating ≡ true)
      → (t.cancelled ≡ false) × (t.progress ≡ waiting) × (t.beating ≡ true)
  Step-keeps s _ cancels e h = (e ∙ h.0, h.1, h.2)
  Step-keeps s _ (beats k) e h = h
  Step-keeps s _ (heartbeat_returns k c) e h = cc
  Step-keeps s _ (begins before after k c) e h = h
  Step-keeps s _ (processes before after k) e h = h
  Step-keeps s _ (wakes before after k) e h = h
  Step-keeps s _ (returns before after k c) e h = cc
  Step-keeps s _ (notices k c) e h = cc
  Step-keeps s _ (joins k b all) e h = cc

  Step-works :
      (p : Phase) (s t : Pool T Q)
      → Runner.Step storage queue decimal
          (handlers storage queue decimal email payment)
          demo_runner
          s
          t
      → t.cancelled ≡ s.cancelled
      → IsAtWork p s
      → IsAtWork p t
  Step-works awaiting_signal s t step e h = Step-keeps s t step e h
  Step-works leaving s t step e h = tt
  Step-works exited s t step e h = tt

  Reachable-IsAtWork :
      {s : Process T Q} → Reachable storage queue decimal email payment s → IsAtWork s.phase s.pool
  unfolding launch start
  Reachable-IsAtWork (begun w) =
      let (err, w') =
        register storage queue decimal (handlers storage queue decimal email payment) demo_runner
          w in
      running-IsAtWork err w'
  Reachable-IsAtWork (later {s} {t} r (works pool alive step e)) =
      Step-works s.phase s.pool pool step e (Reachable-IsAtWork r)
  Reachable-IsAtWork (later r (signals h)) = tt
  Reachable-IsAtWork (later r (exits h)) = tt

  exited-stops :
      (s t : Process T Q) → s.phase ≡ exited → ¬ Step storage queue decimal email payment s t
  exited-stops s _ e (works pool alive step k) = alive e
  exited-stops s _ e (signals h) = cc
  exited-stops s _ e (exits h) = cc

  -- Whenever main of cmd/worker/main.go waits for a signal, whatever its goroutines are doing: after
  -- the signal it can be over in two steps, in which no goroutine moves; Start then still waits for
  -- the context, the heartbeat has not returned, and nothing of the process runs any more.
  pub exits_at_once :
      (s : Process T Q)
      → Reachable storage queue decimal email payment s
      → s.phase ≡ awaiting_signal
      → (t u : Process T Q) × Step storage queue decimal email payment s t
        × Step storage queue decimal email payment t u
        × (u.phase ≡ exited)
        × (u.pool.loops ≡ s.pool.loops)
        × (u.pool.progress ≡ waiting)
        × (u.pool.beating ≡ true)
        × ((v : Process T Q) → ¬ Step storage queue decimal email payment u v)
  exits_at_once s r p =
      let h : IsAtWork awaiting_signal s.pool =
        subst (λ q. IsAtWork q s.pool) p (Reachable-IsAtWork r) in
      (_, _, signals p, exits refl, refl, refl, h.1, h.2, λ v. exited-stops _ v refl)
