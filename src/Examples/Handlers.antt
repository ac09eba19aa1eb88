-- ===== src/Examples/Handlers.antt =====
-- A run of pkg/handlers/email.go.
use job_schedular_service.Base.{refl, String, some, []}
use job_schedular_service.Domain.Job.{job_type_email}
use job_schedular_service.Services.Processor.{register_handler}
use job_schedular_service.Services.Attempt.{Runs}
use job_schedular_service.Handlers.{Decoded, decoded, EmailPayload, EmailService, email_handler}
use job_schedular_service.Handlers.Outcomes.{no_recipient, email_handler-Runs_outcome}

-- Every payload is decoded to the same email, and sending fails.
abbrev email : String → EmailPayload
email to = record { to = to; subject = "hi"; body = ""; sender = "us" }

abbrev as_email : String → String → Decoded EmailPayload
as_email to payload = decoded (email to)

abbrev broken_service : EmailService
broken_service = record { send_email = λ to subject body sender r. (some "SMTP server timeout", r) }

-- Without a recipient the service is not asked.
email_handler-Runs_outcome_example :
    Runs
      (register_handler (email_handler (as_email "") broken_service) [])
      1
      job_type_email
      "{}"
      (some "missing required email fields")
email_handler-Runs_outcome_example =
    email_handler-Runs_outcome (as_email "") broken_service [] 1 "{}" (email "") refl
      (some "missing required email fields") (no_recipient refl refl)
