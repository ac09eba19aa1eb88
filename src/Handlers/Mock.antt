-- ===== src/Handlers/Mock.antt =====
-- MockEmailService of pkg/handlers/email.go and MockPaymentService of pkg/handlers/payments.go. What
-- they take from math/rand and time is a parameter; the lines that print are left out.
use job_schedular_service.Base.{ℤ, pos, Bool, none, some, ◌+ℤ◌, ◌*ℤ◌, if◌then◌else◌}
use job_schedular_service.Domain.Retry.{Duration}
use job_schedular_service.Runtime.{Action, Runtime, pure, ◌>>=◌, ◌>>◌}
use job_schedular_service.Handlers.{EmailService, PaymentService}

-- rand.Intn, rand.Float32 with its order and two constants, and time.Sleep
pub record Chance : Type 1 where
  pub Float32 : Type 0
  pub ltb : Float32 → Float32 → Bool
  pub tenth : Float32
  pub eight_hundredths : Float32
  pub intn : ℤ → Action Runtime ℤ
  pub float32 : Action Runtime Float32
  pub sleep : Duration → Action Runtime (Unit {0})

-- time.Second
abbrev pub second : Duration
second = pos 1000000000

module _ (chance : Chance) where
  unfoldable pub mock_email_service : EmailService
  mock_email_service = record {
    send_email = λ to subject body sender. do
      n ← chance.intn (pos 3)
      chance.sleep ((n +ℤ pos 1) *ℤ second)
      f ← chance.float32
      pure (if chance.ltb f chance.tenth then some "SMTP server timeout" else none);
  }

  unfoldable pub mock_payment_service : {Float : Type 0} → PaymentService Float
  mock_payment_service = record {
    process_payment = λ payment_id amount currency user_id. do
      n ← chance.intn (pos 5)
      chance.sleep ((n +ℤ pos 2) *ℤ second)
      f ← chance.float32
      pure (if chance.ltb f chance.eight_hundredths then some "insufficient funds" else none);
  }
