-- ===== src/Handlers/Outcomes.antt =====
-- How a job of pkg/handlers/email.go or pkg/handlers/payments.go runs.
use job_schedular_service.Base.{
  ◌≡◌, refl, ap, ◌∙◌, String, Bool, true, false, Option, some, if◌then◌else◌, ◌≢◌, arith,
}
use job_schedular_service.Base.Map.{get, get-put, eqb_refl, string_key}
use job_schedular_service.Domain.Job.{Error, job_type_email, job_type_payment}
use job_schedular_service.Runtime.{JobRef, Runtime}
use job_schedular_service.Services.Processor.{JobHandler, Handlers, register_handler}
use job_schedular_service.Services.Attempt.{Runs}
use job_schedular_service.Handlers.{
  Decoded, decoded, EmailPayload, EmailService, lacks_fields, send_if_valid, email_handler,
  PaymentPayload, PaymentService, is_invalid, pay_if_valid, payment_handler,
}

registered_at :
    (handler : JobHandler) (handlers : Handlers)
    → get (register_handler handler handlers) handler.get_type ≡ some handler
unfolding register_handler
registered_at handler handlers =
    get-put handlers handler.get_type handler.get_type handler
    ∙ ap (λ b. if b then some handler else get handlers handler.get_type)
        (eqb_refl handler.get_type)

-- What a handler answers to a payload determines how a job with that payload runs.
answered-Runs :
    (handler : JobHandler) (handlers : Handlers) (p : JobRef) (payload : String)
    (outcome : Option Error) (answer : Runtime → Option Error × Runtime)
    → ((r : Runtime) → (r.cells p).payload ≡ payload → handler.handle p r ≡ answer r)
    → ((r : Runtime) → (answer r).0 ≡ outcome)
    → ((r : Runtime) → (answer r).1.cells p ≡ r.cells p)
    → ((r : Runtime) → (answer r).1.platform ≡ r.platform)
    → Runs (register_handler handler handlers) p handler.get_type payload outcome
answered-Runs handler handlers p payload outcome answer handled returns keeps same_platform =
    record {
      handler = handler;
      registered = registered_at handler handlers;
      returns = λ r h. ap (λ (c : Option Error × Runtime). c.0) (handled r h) ∙ returns r;
      keeps = λ r h. ap (λ (c : Option Error × Runtime). c.1.cells p) (handled r h) ∙ keeps r;
      same_platform =
          λ r h. ap (λ (c : Option Error × Runtime). c.1.platform) (handled r h) ∙ same_platform r;
    }

-- The service returns `outcome` for this email, and leaves the job alone.
pub record Sends (service : EmailService) (p : JobRef) (e : EmailPayload) (outcome : Option Error)
    : Type 0 where
  pub returns : (r : Runtime) → (service.send_email e.to e.subject e.body e.sender r).0 ≡ outcome
  pub keeps :
      (r : Runtime) → (service.send_email e.to e.subject e.body e.sender r).1.cells p ≡ r.cells p
  pub same_platform :
      (r : Runtime) → (service.send_email e.to e.subject e.body e.sender r).1.platform ≡ r.platform

-- What has to come of an email: it has no recipient, no subject, or is sent.
pub data Answers (service : EmailService) (p : JobRef) (e : EmailPayload) (outcome : Option Error)
    : Type 0 where
  no_recipient :
      e.to ≡ "" → outcome ≡ some "missing required email fields" → Answers service p e outcome
  no_subject :
      e.subject ≡ "" → outcome ≡ some "missing required email fields" → Answers service p e outcome
  sent : e.to ≢ "" → e.subject ≢ "" → Sends service p e outcome → Answers service p e outcome

module _ (unmarshal : String → Decoded EmailPayload) (service : EmailService) (handlers : Handlers)
    (p : JobRef) (payload : String) (e : EmailPayload)
    (decodes : unmarshal payload ≡ decoded e) where
  email_handled :
      (r : Runtime)
      → (r.cells p).payload ≡ payload
      → (email_handler unmarshal service).handle p r ≡ send_if_valid unmarshal service (decoded e) r
  unfolding email_handler
  email_handled r h = ap (λ d. send_if_valid unmarshal service d r) (ap unmarshal h ∙ decodes)

  email_sent :
      lacks_fields unmarshal service e ≡ false
      → (r : Runtime)
      → send_if_valid unmarshal service (decoded e) r
        ≡ service.send_email e.to e.subject e.body e.sender r
  unfolding send_if_valid
  email_sent valid r = rw (valid, send_if_valid)

  email_refused :
      lacks_fields unmarshal service e ≡ true
      → (r : Runtime)
      → send_if_valid unmarshal service (decoded e) r ≡ (some "missing required email fields", r)
  unfolding send_if_valid
  email_refused invalid r = rw (invalid, send_if_valid)

  -- Once the email handler is registered, a job of type email whose payload decodes to an email
  -- with a recipient and a subject runs as the email service does: it has the service's outcome for
  -- that email, and the job is left as it was if the service leaves it so.
  pub email_handler-Runs :
      (outcome : Option Error)
      → lacks_fields unmarshal service e ≡ false
      → Sends service p e outcome
      → Runs
          (register_handler (email_handler unmarshal service) handlers)
          p
          job_type_email
          payload
          outcome
  unfolding email_handler
  email_handler-Runs outcome valid s =
      answered-Runs (email_handler unmarshal service) handlers p payload outcome
        (service.send_email e.to e.subject e.body e.sender)
        (λ r h. email_handled r h ∙ email_sent valid r) s.returns s.keeps s.same_platform

  -- Once the email handler is registered, a job of type email whose payload decodes to an email
  -- without a recipient or without a subject fails with "missing required email fields", whatever
  -- the email service does, and the job is left as it was.
  pub email_handler-Runs_invalid :
      lacks_fields unmarshal service e ≡ true
      → Runs
          (register_handler (email_handler unmarshal service) handlers)
          p
          job_type_email
          payload
          (some "missing required email fields")
  unfolding email_handler
  email_handler-Runs_invalid invalid =
      answered-Runs (email_handler unmarshal service) handlers p payload
        (some "missing required email fields") (λ r. (some "missing required email fields", r))
        (λ r h. email_handled r h ∙ email_refused invalid r) (λ r. refl) (λ r. refl) (λ r. refl)

  email_refuses :
      (outcome : Option Error)
      → lacks_fields unmarshal service e ≡ true
      → outcome ≡ some "missing required email fields"
      → Runs
          (register_handler (email_handler unmarshal service) handlers)
          p
          job_type_email
          payload
          outcome
  email_refuses outcome invalid h = rw h (email_handler-Runs_invalid invalid)

  -- Once the email handler is registered, a job of type email whose payload decodes to an email
  -- fails with "missing required email fields" if the email has no recipient or no subject,
  -- whatever the email service does, and the job is left as it was; else it runs as the email
  -- service does, with the outcome that the service has for that email, if the service leaves the
  -- job as it was.
  pub email_handler-Runs_outcome :
      (outcome : Option Error)
      → Answers service p e outcome
      → Runs
          (register_handler (email_handler unmarshal service) handlers)
          p
          job_type_email
          payload
          outcome
  email_handler-Runs_outcome outcome (no_recipient h refused) =
      email_refuses outcome (ground (arith, string_key.eqb_iff e.to "")) refused
  email_handler-Runs_outcome outcome (no_subject h refused) =
      email_refuses outcome
        (ground (arith, string_key.eqb_iff e.to "", string_key.eqb_iff e.subject "")) refused
  email_handler-Runs_outcome outcome (sent to subject s) =
      email_handler-Runs outcome
        (ground (arith, string_key.eqb_iff e.to "", string_key.eqb_iff e.subject "")) s

module _ {Float : Type 0} (not_positive : Float → Bool)
    (unmarshal : String → Decoded (PaymentPayload Float)) (service : PaymentService Float)
    (handlers : Handlers) (p : JobRef) (payload : String) (e : PaymentPayload Float)
    (decodes : unmarshal payload ≡ decoded e) where
  payment_refused :
      is_invalid not_positive unmarshal service e ≡ true
      → (r : Runtime)
      → pay_if_valid not_positive unmarshal service (decoded e) r ≡ (some "invalid payment data", r)
  unfolding pay_if_valid
  payment_refused invalid r = rw (invalid, pay_if_valid)

  -- Once the payment handler is registered, a job of type payment whose payload decodes to a
  -- payment without an id, without a user or with an amount that is not positive fails with
  -- "invalid payment data", whatever the payment service does, and the job is left as it was.
  pub payment_handler-Runs_invalid :
      is_invalid not_positive unmarshal service e ≡ true
      → Runs
          (register_handler (payment_handler not_positive unmarshal service) handlers)
          p
          job_type_payment
          payload
          (some "invalid payment data")
  unfolding payment_handler
  payment_handler-Runs_invalid invalid =
      answered-Runs (payment_handler not_positive unmarshal service) handlers p payload
        (some "invalid payment data") (λ r. (some "invalid payment data", r))
        (λ r h.
          ap (λ d. pay_if_valid not_positive unmarshal service d r) (ap unmarshal h ∙ decodes)
          ∙ payment_refused invalid r)
        (λ r. refl) (λ r. refl) (λ r. refl)
