-- ===== src/Commands/Shutdown.antt =====
-- The end of main of cmd/schedular/main.go.
use job_schedular_service.Base.{ℕ, suc, ◌≡◌, refl, Bool, true, false, ◌⊎◌, inl, inr, arith, subst}
use job_schedular_service.Ports.{QueuePort}
use job_schedular_service.Commands.Wiring.{RestHandler}
use job_schedular_service.Commands.Schedular.{
  Progress, serving, cancelling, shutting_down, joining, finished, Process, Step, ticks,
  promoter_returns, accepts, answers, server_fails, server_closes, signals, shuts_down,
  is_accepting, drains, times_out, joins, Reachable, begun, later, Run, here, more,
}

-- What is over when main has got that far, by what is left of the process: whether the context is
-- cancelled, the promoter runs, the server listens, Shutdown timed out, and the requests.
abbrev pub Over : Progress → Bool → Bool → Bool → Bool → ℕ → Type 0
Over serving cancelled promoting listening timed_out active = cancelled ≡ false
Over cancelling cancelled promoting listening timed_out active = cancelled ≡ true
Over shutting_down cancelled promoting listening timed_out active = cancelled ≡ true
Over joining cancelled promoting listening timed_out active =
    (cancelled ≡ true) × ((timed_out ≡ true) ⊎ (active ≡ 0))
Over finished cancelled promoting listening timed_out active =
    (promoting ≡ false) × (listening ≡ false) × ((timed_out ≡ true) ⊎ (active ≡ 0))

pub Progress-cases :
    (p : Progress)
    → (p ≡ serving) ⊎ ((p ≡ cancelling) ⊎ ((p ≡ shutting_down) ⊎ ((p ≡ joining) ⊎ (p ≡ finished))))
Progress-cases serving = inl refl
Progress-cases cancelling = inr (inl refl)
Progress-cases shutting_down = inr (inr (inl refl))
Progress-cases joining = inr (inr (inr (inl refl)))
Progress-cases finished = inr (inr (inr (inr refl)))

promoter_returns-Over :
    (p : Progress) (c b l t : Bool) (n : ℕ) → Over p c b l t n → Over p c false l t n
promoter_returns-Over serving c b l t n h = h
promoter_returns-Over cancelling c b l t n h = h
promoter_returns-Over shutting_down c b l t n h = h
promoter_returns-Over joining c b l t n h = h
promoter_returns-Over finished c b l t n h = (refl, h.1, h.2)

server_returns-Over :
    (p : Progress) (c b l t : Bool) (n : ℕ) → Over p c b l t n → Over p c b false t n
server_returns-Over serving c b l t n h = h
server_returns-Over cancelling c b l t n h = h
server_returns-Over shutting_down c b l t n h = h
server_returns-Over joining c b l t n h = h
server_returns-Over finished c b l t n h = (h.0, refl, h.2)

accepts-Over :
    (p : Progress) (c b l t : Bool) (n : ℕ)
    → is_accepting p ≡ true
    → Over p c b l t n
    → Over p c b l t (suc n)
accepts-Over serving c b l t n e h = h
accepts-Over cancelling c b l t n e h = h
accepts-Over shutting_down c b l t n e h = h
accepts-Over joining c b l t n e h = cc
accepts-Over finished c b l t n e h = cc

fewer : (t : Bool) (n k : ℕ) → k ≡ suc n → (t ≡ true) ⊎ (k ≡ 0) → (t ≡ true) ⊎ (n ≡ 0)
fewer t n k e (inl h) = inl h
fewer t n k e (inr h) = absurd (omega (arith, e, h))

answers-Over :
    (p : Progress) (c b l t : Bool) (n k : ℕ) → k ≡ suc n → Over p c b l t k → Over p c b l t n
answers-Over serving c b l t n k e h = h
answers-Over cancelling c b l t n k e h = h
answers-Over shutting_down c b l t n k e h = h
answers-Over joining c b l t n k e h = (h.0, fewer t n k e h.1)
answers-Over finished c b l t n k e h = (h.0, h.1, fewer t n k e h.2)

module _ {T Q : Type 0} (queue : QueuePort Q) (handler : RestHandler T Q) where
  abbrev pub IsOver : Process T Q → Type 0
  IsOver s = Over s.progress s.cancelled s.promoting s.listening s.timed_out s.active

  -- What is over, once it is known how far main has got.
  pub Over-at :
      (s : Process T Q) (p : Progress)
      → s.progress ≡ p
      → IsOver s
      → Over p s.cancelled s.promoting s.listening s.timed_out s.active
  Over-at s p e o = subst (λ q. Over q s.cancelled s.promoting s.listening s.timed_out s.active) e o

  Step-IsOver : (s t : Process T Q) → Step queue handler s t → IsOver s → IsOver t
  Step-IsOver s _ (ticks h k) o = o
  Step-IsOver s _ (promoter_returns h k c) o = promoter_returns-Over s.progress _ _ _ _ _ o
  Step-IsOver s _ (accepts h k) o = accepts-Over s.progress _ _ _ _ _ h o
  Step-IsOver s _ (answers n request h k) o = answers-Over s.progress _ _ _ _ n s.active k o
  Step-IsOver s _ (server_fails h k) o = server_returns-Over s.progress _ _ _ _ _ o
  Step-IsOver s _ (server_closes h k) o = server_returns-Over s.progress _ _ _ _ _ o
  Step-IsOver s _ (signals h) o = refl
  Step-IsOver s _ (shuts_down h) o = Over-at s cancelling h o
  Step-IsOver s _ (drains h k) o = (Over-at s shutting_down h o, inr k)
  Step-IsOver s _ (times_out h) o = (Over-at s shutting_down h o, inl refl)
  Step-IsOver s _ (joins h k l) o = (k, l, (Over-at s joining h o).1)

  -- The context is cancelled once main has got past the signal, and when main has returned, the
  -- promoter and the server have, and every request is answered unless Shutdown timed out.
  pub Reachable-IsOver : {s : Process T Q} → Reachable queue handler s → IsOver s
  Reachable-IsOver (begun w) = refl
  Reachable-IsOver (later h step) = Step-IsOver _ _ step (Reachable-IsOver h)

  pub Run-Reachable :
      (s t : Process T Q) (n : ℕ)
      → Run queue handler s t n
      → Reachable queue handler s
      → Reachable queue handler t
  Run-Reachable s _ _ here r = r
  Run-Reachable s u _ (more step run) r = Run-Reachable _ u _ run (later r step)
