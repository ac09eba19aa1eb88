-- ===== src/Redis/Overlap.antt =====
-- Two schedulers that run ProcessDelayedJobs of internal/adapters/secondary/queue/redis.go on the same
-- server: reading the range and moving its members are separate commands.
use job_schedular_service.Base.{
  ◌+◌, ◌≤◌, ◌≡◌, ap, ◌∙◌, String, Bool, true, List, [], ◌∷◌, ◌++◌, arith, select, select-cons,
  Bool-cases, inl, inr,
}
use job_schedular_service.Base.Map.{◌==◌, elem, eqb_refl, string_key}
use job_schedular_service.Domain.Retry.{Time}
use job_schedular_service.Redis.{RedisClient, JobCodec, promote_all}
use job_schedular_service.Redis.Commands.{Documented, occurrences}
use job_schedular_service.Redis.Delayed.{
  AreJobs, belongs, ready_at, fetched, fetched-jobs, fetched-elem, promote_all-entries,
}

occurrences-append :
    (t : String) (us vs : List String)
    → occurrences t (us ++ vs) ≡ occurrences t us + occurrences t vs
occurrences-append t [] vs = omega arith
occurrences-append t (u ∷ us) vs = omega (arith, occurrences-append t us vs)

occurrences-select :
    (keep : String → Bool) (t : String) (us : List String)
    → keep t ≡ true
    → elem t us ≡ true
    → 1 ≤ occurrences t (select keep us)
occurrences-select keep t [] k e = ground arith
occurrences-select keep t (u ∷ us) k e = elim (Bool-cases (u == t)) [
  | inl h ↦
      let same : u ≡ t = (string_key.eqb_iff u t).0 h in
      rw (select-cons, same, k, eqb_refl t) (omega arith)
  | inr h ↦ ground (arith, select-cons keep u us, h, e, occurrences-select keep t us k)
]

module _ {S : Type 0} (client : RedisClient S) (codec : JobCodec) where
  -- Both read the range at their times, and then each moves what it has read.
  unfoldable pub overlapping : Time → Time → S → S
  overlapping first second s =
      let texts = fetched client codec first s in
      let texts' = fetched client codec second s in
      promote_all client codec texts' (promote_all client codec texts s)

module _ {S : Type 0} (client : RedisClient S) (codec : JobCodec) (redis : Documented client) where
  -- With a Redis server that does what is documented: if two schedulers both read the delayed jobs
  -- that are ready, all of which stand for jobs, before either of them moves one, and then one
  -- moves what it has read and after it the other, every text that was ready for both stands at
  -- least twice more in the lane of its job afterwards.
  pub overlapping-duplicates :
      (first second : Time) (s : S) (text name : String)
      → AreJobs client codec redis first s
      → AreJobs client codec redis second s
      → ready_at client codec redis first s text ≡ true
      → ready_at client codec redis second s text ≡ true
      → belongs codec name text ≡ true
      → 2 + occurrences text (redis.entries s name)
        ≤ occurrences text (redis.entries (overlapping client codec first second s) name)
  unfolding overlapping
  overlapping-duplicates first second s text name jobs jobs' ready ready' to = rw moved (
      omega (
        arith,
        occurrences-append text (redis.entries s name ++ lane first) (lane second),
        occurrences-append text (redis.entries s name) (lane first),
        occurrences-select (belongs codec name) text (fetched client codec first s) to
            (fetched-elem client codec redis first s text ∙ ready),
        occurrences-select (belongs codec name) text (fetched client codec second s) to
            (fetched-elem client codec redis second s text ∙ ready'),
      ))
    where
      lane : Time → List String
      lane instant = select (belongs codec name) (fetched client codec instant s)

      moved :
          redis.entries
            (promote_all client codec
              (fetched client codec second s)
              (promote_all client codec (fetched client codec first s) s))
            name
          ≡ (redis.entries s name ++ lane first) ++ lane second
      moved =
          promote_all-entries client codec redis (fetched client codec second s)
            (promote_all client codec (fetched client codec first s) s) name
            (fetched-jobs client codec redis second s jobs')
          ∙ ap (λ (l : List String). l ++ lane second)
              (promote_all-entries client codec redis (fetched client codec first s) s name
                (fetched-jobs client codec redis first s jobs))
