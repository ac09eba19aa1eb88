-- ===== src/Services/World.antt =====
-- The world of the services of internal/core/services, and what they do to its parts.
use job_schedular_service.Base.{String, List, [], ◌∷◌, ◌++◌, Option, none, some}
use job_schedular_service.Domain.Job.{Error}
use job_schedular_service.Runtime.{Action, pure, JobRef, Runtime}
use job_schedular_service.Ports.{Metric, Level, Field, LogEntry, Port, string_field}

pub record World (T Q : Type 0) : Type 0 where
  pub runtime : Runtime
  pub storage : T
  pub queue : Q
  -- oldest first
  pub metrics : List Metric
  pub logs : List LogEntry

module _ {T Q : Type 0} where
  abbrev pub on_runtime : {A : Type 0} → Action Runtime A → Action (World T Q) A
  on_runtime m w = let (a, r) = m w.runtime in (a, record w { runtime = r })

  abbrev pub on_storage : {A : Type 0} → Port T A → Action (World T Q) A
  on_storage m w =
      let (a, (r, t)) = m (w.runtime, w.storage) in (a, record w { runtime = r; storage = t })

  abbrev pub on_queue : {A : Type 0} → Port Q A → Action (World T Q) A
  on_queue m w =
      let (a, (r, q)) = m (w.runtime, w.queue) in (a, record w { runtime = r; queue = q })

  abbrev pub measure : Metric → Action (World T Q) (Unit {0})
  measure metric w = (tt, record w { metrics = w.metrics ++ metric ∷ [] })

  abbrev pub log : Level → String → List Field → Action (World T Q) (Unit {0})
  log level message fields w = (
    tt,
    record w { logs = w.logs ++ record { level = level; message = message; fields = fields } ∷ [] },
  )

  -- logger.Error(ctx, message, job_id, error)
  abbrev pub log_job_error : String → JobRef → Error → Action (World T Q) (Unit {0})
  log_job_error message p err w =
      log Level.error message
        (string_field "job_id" (w.runtime.uuid_text (w.runtime.cells p).id)
          ∷ string_field "error" err
          ∷ [])
        w

  -- if err != nil { logger.Error(ctx, message, job_id, err) }
  abbrev pub log_if_failed : String → JobRef → Option Error → Action (World T Q) (Unit {0})
  log_if_failed message p none = pure tt
  log_if_failed message p (some err) = log_job_error message p err
