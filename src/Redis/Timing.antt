-- ===== src/Redis/Timing.antt =====
-- When a job that was given to EnqueueDelayed of internal/adapters/secondary/queue/redis.go leaves the
-- delayed jobs: scores are whole seconds, and the range of ProcessDelayedJobs starts at 0.
use job_schedular_service.Base.{
  ℤ, pos, ◌≡◌, sym, ap, ◌∙◌, String, Option, none, some, ok, if◌then◌else◌, Bool-cases, ◌≤ℤ◌, ◌<ℤ◌,
  ◌+ℤ◌, ◌⊎◌, inl, inr,
}
use job_schedular_service.Base.Map.{◌==◌, eqb_refl, string_key}
use job_schedular_service.Domain.Retry.{Time}
use job_schedular_service.Runtime.{JobRef, Runtime, now}
use job_schedular_service.Redis.{
  RedisClient, JobCodec, delayed_key, unix, process_delayed_jobs, enqueue_delayed,
}
use job_schedular_service.Redis.Commands.{Documented, within}
use job_schedular_service.Redis.Delayed.{AreJobs, Moves, process_delayed_jobs-Moves}
use job_schedular_service.Redis.Range.{UnixRange, unix-range}

module _ {S : Type 0} (client : RedisClient S) (codec : JobCodec) (redis : Documented client) where
  module _ (p : JobRef) (at : Time) (r : Runtime) (s : S) (text : String)
      (encodes : codec.marshal (r.cells p) ≡ ok text)
      (decodes : codec.unmarshal text ≡ ok (r.cells p)) where
    abbrev delayed_state : S
    delayed_state = (client.zadd delayed_key (unix at) text s).1

    enqueue_delayed-zadd : enqueue_delayed client codec p at (r, s) ≡ (none, (r, delayed_state))
    unfolding enqueue_delayed
    enqueue_delayed-zadd = rw (encodes, redis.zadd_result delayed_key text (unix at) s)

    score_of :
        (u : String)
        → redis.score delayed_state delayed_key u
          ≡ (if text == u then some (unix at) else redis.score s delayed_key u)
    score_of u = redis.zadd_score delayed_key text (unix at) s delayed_key u

    still_jobs :
        (instant : Time)
        → AreJobs client codec redis instant s
        → AreJobs client codec redis instant delayed_state
    still_jobs instant jobs u h = elim (Bool-cases (text == u)) [
      | inl e ↦ rw (← (string_key.eqb_iff text u).0 e) (r.cells p, decodes, encodes)
      | inr e ↦ jobs u (
          ap (within (pos 0) (unix instant)) (
            sym
              (score_of u ∙ ap (λ b. if b then some (unix at) else redis.score s delayed_key u) e))
          ∙ h)
    ]

    -- With a Redis server that does what is documented, where every delayed text that is ready
    -- stands for its job: for a job that EnqueueDelayed has put off and that can be read back, a
    -- call of ProcessDelayedJobs has one of three ends: its time is before 1970, and it stays
    -- delayed; its time is after that of the call, and it stays delayed; or it leaves the delayed
    -- jobs, less than a second early.
    pub enqueue_delayed-due :
        AreJobs client codec redis (now r).0 s
        → let waiting = (enqueue_delayed client codec p at (r, s)).1 in
          let (r', s') = (process_delayed_jobs client codec waiting).1 in
          let left = redis.score s' delayed_key text in
          ((at <ℤ pos 0) × (left ≡ some (unix at)))
          ⊎ (((pos 0 ≤ℤ at) × (at <ℤ (now r).0 +ℤ pos 1000000000) × (left ≡ none))
              ⊎ (((now r).0 <ℤ at) × (left ≡ some (unix at))))
    enqueue_delayed-due jobs = rw enqueue_delayed-zadd (outcome (unix-range at (now r).0))
      where
        mine : redis.score delayed_state delayed_key text ≡ some (unix at)
        mine = score_of text ∙ rw (eqb_refl text)

        promoted :
            Moves client codec redis
              (now r).0
              delayed_state
              (process_delayed_jobs client codec (r, delayed_state)).1.1
        promoted =
            (process_delayed_jobs-Moves client codec redis r delayed_state
              (still_jobs (now r).0 jobs)).2

        left_is :
            redis.score (process_delayed_jobs client codec (r, delayed_state)).1.1 delayed_key text
            ≡ (if within (pos 0) (unix (now r).0) (some (unix at)) then none else some (unix at))
        left_is =
            promoted.delayed text
            ∙ ap (λ (o : Option ℤ). if within (pos 0) (unix (now r).0) o then none else o) mine

        outcome :
            UnixRange at (now r).0
            → let left =
                redis.score
                  (process_delayed_jobs client codec (r, delayed_state)).1.1
                  delayed_key
                  text in
              ((at <ℤ pos 0) × (left ≡ some (unix at)))
              ⊎ (((pos 0 ≤ℤ at) × (at <ℤ (now r).0 +ℤ pos 1000000000) × (left ≡ none))
                  ⊎ (((now r).0 <ℤ at) × (left ≡ some (unix at))))
        outcome (inl (h, e)) = inl (h, left_is ∙ rw e)
        outcome (inr (inl (h, k, e))) = inr (inl (h, k, left_is ∙ rw e))
        outcome (inr (inr (h, e))) = inr (inr (h, left_is ∙ rw e))
