-- ===== src/Commands/Schedular.antt =====
-- main of cmd/schedular/main.go as a step relation: main itself, the goroutine that promotes the delayed
-- jobs, the goroutine of the HTTP server, and the requests that it serves. What net/http and os/signal do
-- is a choice of steps: Shutdown makes ListenAndServe return and accepts no request any more, and returns
-- when no request is left or with an error when its time is over.
use job_schedular_service.Base.{ℕ, suc, ◌+◌, ◌≡◌, Bool, true, false}
use job_schedular_service.Ports.{QueuePort}
use job_schedular_service.Services.World.{World}
use job_schedular_service.Commands.{promote_delayed}
use job_schedular_service.Commands.Wiring.{RestHandler, Request, answer}

-- main waits for a signal, has called cancel(), is in the call of Shutdown, in wg.Wait, or has
-- returned.
pub data Progress : Type 0 where
  serving cancelling shutting_down joining finished : Progress

pub record Process (T Q : Type 0) : Type 0 where
  pub world : World T Q
  pub cancelled : Bool
  pub promoting : Bool
  pub listening : Bool
  -- how many requests were accepted and are not answered
  pub active : ℕ
  -- whether Shutdown returned an error
  pub timed_out : Bool
  pub progress : Progress

-- main once it has started the two goroutines
abbrev pub started : {T Q : Type 0} → World T Q → Process T Q
started w = record {
  world = w;
  cancelled = false;
  promoting = true;
  listening = true;
  active = 0;
  timed_out = false;
  progress = serving;
}

abbrev pub is_running : Progress → Bool
is_running serving = true
is_running cancelling = true
is_running shutting_down = true
is_running joining = true
is_running finished = false

-- Shutdown is not called yet.
abbrev pub is_accepting : Progress → Bool
is_accepting serving = true
is_accepting cancelling = true
is_accepting shutting_down = false
is_accepting joining = false
is_accepting finished = false

-- Shutdown is called, and the process is not over.
abbrev pub is_closing : Progress → Bool
is_closing serving = false
is_closing cancelling = false
is_closing shutting_down = true
is_closing joining = true
is_closing finished = false

module _ {T Q : Type 0} (queue : QueuePort Q) (handler : RestHandler T Q) where
  pub data Step (s : Process T Q) : Process T Q → Type 0 where
    -- case <-ticker.C; select may take it even if the context is done
    ticks :
        is_running s.progress ≡ true
        → s.promoting ≡ true
        → Step s (record s { world = (promote_delayed queue s.world).1 })
    -- case <-ctx.Done()
    promoter_returns :
        is_running s.progress ≡ true
        → s.promoting ≡ true
        → s.cancelled ≡ true
        → Step s (record s { promoting = false })
    -- the server accepts and answers requests
    accepts :
        is_accepting s.progress ≡ true
        → s.listening ≡ true
        → Step s (record s { active = suc s.active })
    answers :
        (n : ℕ) (request : Request)
        → is_running s.progress ≡ true
        → s.active ≡ suc n
        → Step s (record s { world = (answer handler request s.world).1; active = n })
    -- ListenAndServe returns, with an error of its own or because of Shutdown
    server_fails :
        is_accepting s.progress ≡ true
        → s.listening ≡ true
        → Step s (record s { listening = false })
    server_closes :
        is_closing s.progress ≡ true → s.listening ≡ true → Step s (record s { listening = false })
    -- <-sigChan and cancel()
    signals : s.progress ≡ serving → Step s (record s { cancelled = true; progress = cancelling })
    -- srv.Shutdown is called
    shuts_down : s.progress ≡ cancelling → Step s (record s { progress = shutting_down })
    -- srv.Shutdown returns
    drains : s.progress ≡ shutting_down → s.active ≡ 0 → Step s (record s { progress = joining })
    times_out :
        s.progress ≡ shutting_down → Step s (record s { timed_out = true; progress = joining })
    -- wg.Wait returns
    joins :
        s.progress ≡ joining
        → s.promoting ≡ false
        → s.listening ≡ false
        → Step s (record s { progress = finished })

  pub data Reachable : Process T Q → Type 0 where
    begun : (w : World T Q) → Reachable (started w)
    later : {s t : Process T Q} → Reachable s → Step s t → Reachable t

  -- A run, with the number of its steps that are no tick and no answer to a request.
  abbrev pub weight : {s t : Process T Q} → Step s t → ℕ
  weight (ticks h k) = 0
  weight (promoter_returns h k c) = 1
  weight (accepts h k) = 0
  weight (answers n request h k) = 0
  weight (server_fails h k) = 1
  weight (server_closes h k) = 1
  weight (signals h) = 1
  weight (shuts_down h) = 1
  weight (drains h k) = 1
  weight (times_out h) = 1
  weight (joins h k l) = 1

  pub data Run : Process T Q → Process T Q → ℕ → Type 0 where
    here : {s : Process T Q} → Run s s 0
    more : {s t u : Process T Q} {n : ℕ} (step : Step s t) → Run t u n → Run s u (weight step + n)
