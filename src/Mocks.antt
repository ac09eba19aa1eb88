-- ===== src/Mocks.antt =====
-- internal/adapters/secondary/metric/mock_metrics.go and
-- internal/adapters/secondary/logger/mock_logger.go: what they print. The texts that %d and %v give are
-- parameters.
use job_schedular_service.Base.{ℤ, String, str_append, Bool, true, false, List, [], ◌∷◌}
use job_schedular_service.Domain.Priority.{Priority, to_string}
use job_schedular_service.Domain.Retry.{Duration}
use job_schedular_service.Domain.Job.{JobType}
use job_schedular_service.Ports.{
  Metric, jobs_scheduled, jobs_completed, jobs_failed, jobs_retried, jobs_dead_lettered,
  queue_length, delayed_queue_length, dead_letter_queue_length, active_workers, worker_heartbeats,
  Level, Field, LogEntry,
}

-- The parts of a line, in order.
abbrev pub joined : List String → String
joined [] = ""
joined (part ∷ parts) = str_append part (joined parts)

-- "%s/%s" of a job's type and priority
abbrev pub kind_text : JobType → Priority → String
kind_text job_type priority = joined (job_type ∷ "/" ∷ to_string priority ∷ [])

module _ (decimal : ℤ → String) (duration_text : Duration → String)
    (fields_text : List Field → String) where
  -- the line that a method of MockMetrics prints
  unfoldable pub metric_line : Metric → String
  metric_line (jobs_scheduled job_type priority) =
      joined ("[METRICS] Job scheduled: " ∷ kind_text job_type priority ∷ "\n" ∷ [])
  metric_line (jobs_completed job_type priority duration) = joined (
      "[METRICS] Job completed: "
      ∷ kind_text job_type priority
      ∷ " in "
      ∷ duration_text duration
      ∷ "\n"
      ∷ [])
  metric_line (jobs_failed job_type priority reason) =
      joined ("[METRICS] Job failed: " ∷ kind_text job_type priority ∷ " - " ∷ reason ∷ "\n" ∷ [])
  metric_line (jobs_retried job_type priority) =
      joined ("[METRICS] Job retried: " ∷ kind_text job_type priority ∷ "\n" ∷ [])
  metric_line (jobs_dead_lettered job_type priority) =
      joined ("[METRICS] Job dead lettered: " ∷ kind_text job_type priority ∷ "\n" ∷ [])
  metric_line (queue_length priority length) =
      joined ("[METRICS] Queue length " ∷ to_string priority ∷ ": " ∷ decimal length ∷ "\n" ∷ [])
  metric_line (delayed_queue_length length) =
      joined ("[METRICS] Delayed queue length: " ∷ decimal length ∷ "\n" ∷ [])
  metric_line (dead_letter_queue_length length) =
      joined ("[METRICS] Dead letter queue length: " ∷ decimal length ∷ "\n" ∷ [])
  metric_line (active_workers count) =
      joined ("[METRICS] Active workers: " ∷ decimal count ∷ "\n" ∷ [])
  metric_line (worker_heartbeats worker_id) =
      joined ("[METRICS] Worker heartbeat: " ∷ worker_id ∷ "\n" ∷ [])

  -- the prefix of a level's method of MockLogger
  abbrev pub level_tag : Level → String
  level_tag Level.debug = "[DEBUG] "
  level_tag Level.info = "[INFO] "
  level_tag Level.warn = "[WARN] "
  level_tag Level.error = "[ERROR] "
  level_tag Level.fatal = "[FATAL] "

  -- the line that a method of MockLogger prints
  unfoldable pub log_line : LogEntry → String
  log_line entry =
      joined (level_tag entry.level ∷ entry.message ∷ " " ∷ fields_text entry.fields ∷ "\n" ∷ [])

  -- os.Exit(1) is called after the line.
  unfoldable pub exits : LogEntry → Bool
  exits entry = elim entry.level [ Level.fatal ↦ true | _ ↦ false ]
