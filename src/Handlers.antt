-- ===== src/Handlers.antt =====
-- pkg/handlers/email.go and pkg/handlers/payments.go. The decoding of the payload and the services
-- that the handlers are given are parameters; a float64 is only compared with 0.
pub mod Outcomes
pub mod Mock
use job_schedular_service.Base.{String, Bool, Option, some, ◌||◌, if◌then◌else◌}
use job_schedular_service.Base.Map.{◌==◌, string_key}
use job_schedular_service.Domain.Job.{Error, job_type_email, job_type_payment}
use job_schedular_service.Runtime.{Action, pure, Runtime, wrap_error}
use job_schedular_service.Services.Processor.{JobHandler}

-- the result of json.Unmarshal
pub data Decoded (A : Type 0) : Type 0 where
  malformed : Error → Decoded A
  decoded : A → Decoded A

-- `sender` is the field From.
pub record EmailPayload : Type 0 where
  pub to : String
  pub subject : String
  pub body : String
  pub sender : String

-- EmailService
pub record EmailService : Type 0 where
  pub send_email : String → String → String → String → Action Runtime (Option Error)

module _ (unmarshal : String → Decoded EmailPayload) (service : EmailService) where
  -- "Validate payload"
  abbrev pub lacks_fields : EmailPayload → Bool
  lacks_fields payload = payload.to == "" || payload.subject == ""

  unfoldable pub send_if_valid : Decoded EmailPayload → Action Runtime (Option Error)
  send_if_valid (malformed err) = pure (some (wrap_error "invalid email payload: " err))
  send_if_valid (decoded payload) =
      if lacks_fields payload
      then pure (some "missing required email fields")
      else service.send_email payload.to payload.subject payload.body payload.sender

  -- EmailHandler
  unfoldable pub email_handler : JobHandler
  unfolding send_if_valid
  email_handler = record {
    handle = λ p r. send_if_valid (unmarshal (r.cells p).payload) r;
    get_type = job_type_email;
  }

pub record PaymentPayload (Float : Type 0) : Type 0 where
  pub payment_id : String
  pub amount : Float
  pub currency : String
  pub user_id : String

-- PaymentService
pub record PaymentService (Float : Type 0) : Type 0 where
  pub process_payment : String → Float → String → String → Action Runtime (Option Error)

-- `not_positive amount` is amount <= 0
module _ {Float : Type 0} (not_positive : Float → Bool)
    (unmarshal : String → Decoded (PaymentPayload Float)) (service : PaymentService Float) where
  abbrev pub is_invalid : PaymentPayload Float → Bool
  is_invalid payload =
      payload.payment_id == "" || not_positive payload.amount || payload.user_id == ""

  unfoldable pub pay_if_valid : Decoded (PaymentPayload Float) → Action Runtime (Option Error)
  pay_if_valid (malformed err) = pure (some (wrap_error "invalid payment payload: " err))
  pay_if_valid (decoded payload) =
      if is_invalid payload
      then pure (some "invalid payment data")
      else service.process_payment payload.payment_id payload.amount payload.currency
          payload.user_id

  -- PaymentHandler
  unfoldable pub payment_handler : JobHandler
  unfolding pay_if_valid
  payment_handler = record {
    handle = λ p r. pay_if_valid (unmarshal (r.cells p).payload) r;
    get_type = job_type_payment;
  }
