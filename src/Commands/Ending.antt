-- ===== src/Commands/Ending.antt =====
-- How main of cmd/schedular/main.go comes to its end.
use job_schedular_service.Base.{
  ℕ, zero, suc, ◌+◌, ◌≤◌, ◌≡◌, refl, ◌∙◌, Bool, true, false, ◌⊎◌, inl, inr, arith, Bool-cases,
  if◌then◌else◌,
}
use job_schedular_service.Ports.{QueuePort}
use job_schedular_service.Commands.Wiring.{RestHandler, get_queue_stats_of}
use job_schedular_service.Commands.Schedular.{
  Progress, serving, cancelling, shutting_down, joining, finished, Process, is_running, Step, ticks,
  promoter_returns, accepts, answers, server_fails, server_closes, signals, shuts_down, drains,
  times_out, joins, Reachable, weight, Run, here, more,
}
use job_schedular_service.Commands.Shutdown.{
  Progress-cases, Over-at, Run-Reachable, Reachable-IsOver,
}

module _ {T Q : Type 0} (queue : QueuePort Q) (handler : RestHandler T Q) where
  -- How many steps main and its goroutines are from the end, once a signal has come.
  abbrev progress_left : Progress → ℕ
  progress_left serving = 4
  progress_left cancelling = 3
  progress_left shutting_down = 2
  progress_left joining = 1
  progress_left finished = 0

  abbrev one_if : Bool → ℕ
  one_if b = if b then 1 else 0

  abbrev pub steps_left : Process T Q → ℕ
  steps_left s = progress_left s.progress + one_if s.promoting + one_if s.listening

  progress_left-bound : (p : Progress) → progress_left p ≤ 4
  progress_left-bound serving = omega arith
  progress_left-bound cancelling = omega arith
  progress_left-bound shutting_down = omega arith
  progress_left-bound joining = omega arith
  progress_left-bound finished = omega arith

  steps_left-bound : (s : Process T Q) → steps_left s ≤ 6
  steps_left-bound s = ground (arith, progress_left-bound s.progress)

  stepping :
      (s t : Process T Q) (step : Step queue handler s t)
      → weight queue handler step + steps_left t ≡ steps_left s
  stepping s _ (ticks h k) = omega arith
  stepping s _ (promoter_returns h k c) = rw k (omega arith)
  stepping s _ (accepts h k) = omega arith
  stepping s _ (answers n request h k) = omega arith
  stepping s _ (server_fails h k) = rw k (omega arith)
  stepping s _ (server_closes h k) = rw k (omega arith)
  stepping s _ (signals h) = rw h (omega arith)
  stepping s _ (shuts_down h) = rw h (omega arith)
  stepping s _ (drains h k) = rw h (omega arith)
  stepping s _ (times_out h) = rw h (omega arith)
  stepping s _ (joins h k l) = rw h (omega arith)

  stepping-Run :
      (s t : Process T Q) (n : ℕ) → Run queue handler s t n → n + steps_left t ≡ steps_left s
  stepping-Run s _ _ here = omega arith
  stepping-Run s u _ (more step run) = omega (arith, stepping s _ step, stepping-Run _ u _ run)

  -- A run to the end of main in which every request is answered and Shutdown does not time out.
  abbrev pub Ends : Process T Q → Type 0
  Ends s =
      (u : Process T Q) × (n : ℕ) × Run queue handler s u n
      × (u.progress ≡ finished)
      × (u.active ≡ 0)
      × (u.timed_out ≡ s.timed_out)

  step-Ends :
      (s t : Process T Q) → Step queue handler s t → t.timed_out ≡ s.timed_out → Ends t → Ends s
  step-Ends s t step e (u, n, run, f, a, o) =
      (u, weight queue handler step + n, more step run, f, a, o ∙ e)

  joined-Ends :
      (s : Process T Q)
      → s.progress ≡ joining
      → s.promoting ≡ false
      → s.listening ≡ false
      → s.active ≡ 0
      → Ends s
  joined-Ends s p b l a = step-Ends s _ (joins p b l) refl (_, 0, here, refl, a, refl)

  unheard-Ends :
      (s : Process T Q)
      → s.progress ≡ joining
      → s.cancelled ≡ true
      → s.promoting ≡ false
      → s.active ≡ 0
      → Ends s
  unheard-Ends s p c b a = elim (Bool-cases s.listening) [
    | inl l ↦ step-Ends s _ (server_closes (rw p refl) l) refl (joined-Ends _ p b refl a)
    | inr l ↦ joined-Ends s p b l a
  ]

  drained-Ends :
      (s : Process T Q) → s.progress ≡ joining → s.cancelled ≡ true → s.active ≡ 0 → Ends s
  drained-Ends s p c a = elim (Bool-cases s.promoting) [
    | inl b ↦ step-Ends s _ (promoter_returns (rw p refl) b c) refl (unheard-Ends _ p c refl a)
    | inr b ↦ unheard-Ends s p c b a
  ]

  -- Once a signal has come.
  signalled-Ends :
      (n : ℕ) (s : Process T Q)
      → s.active ≡ n
      → s.cancelled ≡ true
      → (s.progress ≡ shutting_down) ⊎ (s.progress ≡ joining)
      → Ends s
  signalled-Ends zero s a c (inl p) = step-Ends s _ (drains p a) refl (drained-Ends _ refl c a)
  signalled-Ends zero s a c (inr p) = drained-Ends s p c a
  signalled-Ends (suc n) s a c h =
      step-Ends s _ (answers n get_queue_stats_of (running h) a) refl (signalled-Ends n _ refl c h)
    where
      running : (s.progress ≡ shutting_down) ⊎ (s.progress ≡ joining) → is_running s.progress ≡ true
      running (inl p) = rw p refl
      running (inr p) = rw p refl

  cancelled-Ends : (s : Process T Q) → s.progress ≡ cancelling → s.cancelled ≡ true → Ends s
  cancelled-Ends s p c =
      step-Ends s _ (shuts_down p) refl (signalled-Ends s.active _ refl c (inl refl))

  Reachable-Ends : {s : Process T Q} → Reachable queue handler s → (s.progress ≡ finished) ⊎ Ends s
  Reachable-Ends {s} r =
      let over = Reachable-IsOver queue handler r in
      elim (Progress-cases s.progress) [
        | inl p ↦ inr (step-Ends s _ (signals p) refl (cancelled-Ends _ refl refl))
        | inr (inl p) ↦ inr (cancelled-Ends s p (Over-at queue handler s cancelling p over))
        | inr (inr (inl p)) ↦
            inr (
              signalled-Ends s.active s refl (Over-at queue handler s shutting_down p over) (inl p))
        | inr (inr (inr (inl p))) ↦
            inr (signalled-Ends s.active s refl (Over-at queue handler s joining p over).0 (inr p))
        | inr (inr (inr (inr p))) ↦ inl p
      ]

  -- From every state that main of cmd/schedular/main.go reaches, a run takes at most six steps besides
  -- ticks and requests, and wherever it has got, main has returned or can come to its end with every
  -- request answered and without a time-out.
  pub main-Ends :
      (s t : Process T Q) (n : ℕ)
      → Reachable queue handler s
      → Run queue handler s t n
      → (n + steps_left t ≡ steps_left s) × (steps_left s ≤ 6) × ((t.progress ≡ finished) ⊎ Ends t)
  main-Ends s t n r run = (
    stepping-Run s t n run,
    steps_left-bound s,
    Reachable-Ends (Run-Reachable queue handler s t n run r),
  )
