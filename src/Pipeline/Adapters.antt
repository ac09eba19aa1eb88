-- ===== src/Pipeline/Adapters.antt =====
-- The memory storage (internal/adapters/secondary/storage/memory.go) and the job handlers of pkg/handlers
-- change no job's id.
use mathlib.Core.Option.{some-injective}
use job_schedular_service.Base.{
  ℤ, pos, ◌+ℤ◌, ◌*ℤ◌, ◌∙◌, suc, ◌⊎◌, Option, ◌≡◌, refl, ap, String, Bool, none, some, [],
  Option-cases, Bool-cases, inl, inr, if◌then◌else◌, arith, subst, sym,
}
use job_schedular_service.Base.Map.{Map, get, get-put, ◌==◌, string_key, nat_key}
use job_schedular_service.Domain.Job.{Uuid, Error, JobType}
use job_schedular_service.Domain.Retry.{Duration}
use job_schedular_service.Runtime.{JobRef, Runtime, pure, ◌>>=◌, ◌>>◌, update, now, write}
use job_schedular_service.Ports.{Worker}
use job_schedular_service.Memory.Storage.{MemoryStorage, save_job, update_job, save_job_history}
use job_schedular_service.Memory.Ports.{memory_storage}
use job_schedular_service.Services.Processor.{JobHandler, Handlers, register_handler}
use job_schedular_service.Handlers.{
  Decoded, malformed, decoded, EmailPayload, EmailService, send_if_valid, email_handler,
  lacks_fields, PaymentPayload, PaymentService, is_invalid, pay_if_valid, payment_handler,
}
use job_schedular_service.Handlers.Mock.{Chance, second, mock_email_service, mock_payment_service}
use job_schedular_service.Commands.{service_handlers}
use job_schedular_service.Pipeline.Moves.{Keeps, Keeps-refl, Keeps-trans, IsKeeping}
use job_schedular_service.Pipeline.Keeping.{AreKeeping, update-ticked}
use job_schedular_service.Pipeline.Processing.{IsKeepingStorage}

update_job-Keeps : (p : JobRef) (s : Runtime × MemoryStorage) → Keeps s.0 (update_job p s).1.0
unfolding update_job now write update
update_job-Keeps p s = elim (Option-cases (get s.1.jobs (s.0.cells p).id)) [
  | inl e ↦ rw (e, update_job) (Keeps-refl s.0)
  | inr (q, e) ↦
      rw (e, update_job)
        (update-ticked (suc s.0.reads) p (λ job. record job { updated_at = s.0.clock s.0.reads })
          s.0 (λ job. refl))
]

pub memory_storage-IsKeepingStorage :
    (jobs_order : Map Uuid JobRef → Map Uuid JobRef)
    (workers_order : Map String Worker → Map String Worker)
    → IsKeepingStorage (memory_storage jobs_order workers_order)
unfolding save_job_history
memory_storage-IsKeepingStorage jobs_order workers_order = record {
  updates = update_job-Keeps;
  saves_history = λ h s. Keeps-refl s.0;
}

pub save_job-Keeps : (p : JobRef) (s : Runtime × MemoryStorage) → Keeps s.0 (save_job p s).1.0
unfolding save_job
save_job-Keeps p s = Keeps-refl s.0

register_handler-known :
    (handler : JobHandler) (handlers : Handlers) (job_type : JobType) (h : JobHandler)
    → get (register_handler handler handlers) job_type ≡ some h
    → (handler ≡ h) ⊎ (get handlers job_type ≡ some h)
unfolding register_handler
register_handler-known handler handlers job_type h e =
    let choose : Bool → Option JobHandler =
      λ x. if x then some handler else get handlers job_type in
    let found = get-put handlers handler.get_type job_type handler in
    elim (Bool-cases (handler.get_type == job_type)) [
      | inl b ↦
          let k : some handler ≡ some h = sym (found ∙ ap choose b) ∙ e in
          inl (some-injective handler h k)
      | inr b ↦ inr (sym (found ∙ ap choose b) ∙ e)
    ]

pub register_handler-AreKeeping :
    (handler : JobHandler) (handlers : Handlers)
    → ((p : JobRef) → IsKeeping (handler.handle p))
    → AreKeeping handlers
    → AreKeeping (register_handler handler handlers)
register_handler-AreKeeping handler handlers one all job_type h e p =
    elim (register_handler-known handler handlers job_type h e) [
      | inl same ↦ subst (λ (h' : JobHandler). IsKeeping (h'.handle p)) same (one p)
      | inr k ↦ all job_type h k p
    ]

pub no_handlers-AreKeeping : AreKeeping []
unfolding get
no_handlers-AreKeeping job_type h e p = absurd (ground (arith, e))

module _ (unmarshal : String → Decoded EmailPayload) (service : EmailService)
    (keeping : (to subject body sender : String)
      → IsKeeping (service.send_email to subject body sender)) where
  send_if_valid-IsKeeping :
      (payload : Decoded EmailPayload) → IsKeeping (send_if_valid unmarshal service payload)
  unfolding send_if_valid
  send_if_valid-IsKeeping (malformed err) r = Keeps-refl r
  send_if_valid-IsKeeping (decoded e) r = elim (Bool-cases (lacks_fields unmarshal service e)) [
    | inl b ↦ rw b (Keeps-refl r)
    | inr b ↦ rw b (keeping e.to e.subject e.body e.sender r)
  ]

  pub email_handler-IsKeeping :
      (p : JobRef) → IsKeeping ((email_handler unmarshal service).handle p)
  unfolding email_handler
  email_handler-IsKeeping p r = send_if_valid-IsKeeping (unmarshal (r.cells p).payload) r

module _ {Float : Type 0} (not_positive : Float → Bool)
    (unmarshal : String → Decoded (PaymentPayload Float)) (service : PaymentService Float)
    (keeping : (payment_id : String) (amount : Float) (currency user_id : String)
      → IsKeeping (service.process_payment payment_id amount currency user_id)) where
  pay_if_valid-IsKeeping :
      (payload : Decoded (PaymentPayload Float))
      → IsKeeping (pay_if_valid not_positive unmarshal service payload)
  unfolding pay_if_valid
  pay_if_valid-IsKeeping (malformed err) r = Keeps-refl r
  pay_if_valid-IsKeeping (decoded e) r =
      elim (Bool-cases (is_invalid not_positive unmarshal service e)) [
        | inl b ↦ rw b (Keeps-refl r)
        | inr b ↦ rw b (keeping e.payment_id e.amount e.currency e.user_id r)
      ]

  pub payment_handler-IsKeeping :
      (p : JobRef) → IsKeeping ((payment_handler not_positive unmarshal service).handle p)
  unfolding payment_handler
  payment_handler-IsKeeping p r = pay_if_valid-IsKeeping (unmarshal (r.cells p).payload) r

-- math/rand and time touch no job.
pub record IsKeepingChance (chance : Chance) : Type 0 where
  pub intn : (n : ℤ) → IsKeeping (chance.intn n)
  pub float32 : IsKeeping chance.float32
  pub sleep : (d : Duration) → IsKeeping (chance.sleep d)

module _ (chance : Chance) (ok : IsKeepingChance chance) where
  -- A mock service sleeps for a drawn time and then draws whether it fails.
  draws-IsKeeping :
      (n m : ℤ) (limit : chance.Float32) (reason : Error)
      → IsKeeping (do
        k ← chance.intn n
        chance.sleep ((k +ℤ m) *ℤ second)
        x ← chance.float32
        pure (if chance.ltb x limit then some reason else none))
  draws-IsKeeping n m limit reason r =
      let (k, r₁) = chance.intn n r in
      let r₂ = (chance.sleep ((k +ℤ m) *ℤ second) r₁).1 in
      Keeps-trans r r₁ _ (ok.intn n r)
        (Keeps-trans r₁ r₂ _ (ok.sleep ((k +ℤ m) *ℤ second) r₁) (ok.float32 r₂))

  -- The handlers that the commands register change no job's id.
  pub service_handlers-AreKeeping :
      {Float : Type 0} (not_positive : Float → Bool) (emails : String → Decoded EmailPayload)
      (payments : String → Decoded (PaymentPayload Float))
      → AreKeeping (
          service_handlers
            (email_handler emails (mock_email_service chance))
            (payment_handler not_positive payments (mock_payment_service chance)))
  unfolding service_handlers mock_email_service mock_payment_service
  service_handlers-AreKeeping not_positive emails payments =
      register_handler-AreKeeping _ _
        (payment_handler-IsKeeping not_positive payments (mock_payment_service chance) (λ id a c u.
          draws-IsKeeping (pos 5) (pos 2) chance.eight_hundredths "insufficient funds"))
        (register_handler-AreKeeping _ []
          (email_handler-IsKeeping emails (mock_email_service chance)
            (λ t s b f. draws-IsKeeping (pos 3) (pos 1) chance.tenth "SMTP server timeout"))
          no_handlers-AreKeeping)
