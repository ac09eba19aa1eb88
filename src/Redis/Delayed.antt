-- ===== src/Redis/Delayed.antt =====
-- EnqueueDelayed and ProcessDelayedJobs of internal/adapters/secondary/queue/redis.go.
use mathlib.Core.List.{append_assoc, append-nil}
use job_schedular_service.Base.{
  ◌≤◌, ℤ, pos, ◌≡◌, refl, sym, ap, ◌∙◌, String, Bool, true, false, ◌||◌, Option, none, List, [],
  ◌∷◌, ◌++◌, Result, ok, failed, All, arith, if◌then◌else◌, Bool-cases, select, select-cons, ◌⊎◌,
  inl, inr,
}
use job_schedular_service.Base.Map.{◌==◌, elem, eqb_refl, string_key}
use job_schedular_service.Domain.Retry.{Time}
use job_schedular_service.Domain.Job.{Job}
use job_schedular_service.Runtime.{Runtime, now}
use job_schedular_service.Redis.{
  RedisClient, JobCodec, get_queue_name, delayed_key, unix, push_job, promote_decoded, promote,
  promote_all, fetch_ready, after_fetch, process_delayed_jobs,
}
use job_schedular_service.Redis.Commands.{Documented, within, occurrences}

module _ (codec : JobCodec) where
  -- A text that stands for a job and is what the job is marshalled to.
  abbrev pub IsJobText : String → Type 0
  IsJobText text = (job : Job) × (codec.unmarshal text ≡ ok job) × (codec.marshal job ≡ ok text)

  -- The text's job goes to the queue of that name.
  abbrev of_result : String → Result Job → Bool
  of_result name (failed err) = false
  of_result name (ok job) = get_queue_name job.priority == name

  abbrev pub belongs : String → String → Bool
  belongs name text = of_result name (codec.unmarshal text)

All-of_elem {ℓ} :
    (P : String → Type ℓ) (texts : List String)
    → ((t : String) → elem t texts ≡ true → P t)
    → All P texts
All-of_elem P [] h = tt
All-of_elem P (t ∷ texts) h =
    (h t (ground (arith, eqb_refl t)), All-of_elem P texts (λ u e. h u (ground (arith, e))))

if-append :
    (b : Bool) (t : String) (ts : List String)
    → (if b then t ∷ [] else []) ++ ts ≡ (if b then t ∷ ts else ts)
if-append true t ts = refl
if-append false t ts = refl

if-or :
    (a b : Bool) (o : Option ℤ)
    → (if b then none else if a then none else o) ≡ (if a || b then none else o)
if-or true true o = refl
if-or true false o = refl
if-or false true o = refl
if-or false false o = refl

occurs :
    (t : String) (us : List String)
    → ((elem t us ≡ true) × (1 ≤ occurrences t us)) ⊎ ((elem t us ≡ false) × (occurrences t us ≡ 0))
occurs t [] = inr (refl, refl)
occurs t (u ∷ us) = elim (Bool-cases (u == t)) [
  | inl e ↦ inl (rw e refl, rw e (omega arith))
  | inr e ↦ elim (occurs t us) [
    | inl h ↦ inl (rw e h.0, rw e (omega (arith, h.1)))
    | inr h ↦ inr (rw e h.0, rw e (omega (arith, h.1)))
  ]
]

elem-occurrences :
    (t : String) (us : List String) (b : Bool)
    → occurrences t us ≡ (if b then 1 else 0)
    → elem t us ≡ b
elem-occurrences t us true h = elim (occurs t us) [
  | inl k ↦ k.0
  | inr k ↦ absurd (omega (arith, h, k.1))
]
elem-occurrences t us false h = elim (occurs t us) [
  | inl k ↦ absurd (omega (arith, h, k.1))
  | inr k ↦ k.0
]

module _ {S : Type 0} (client : RedisClient S) (codec : JobCodec) where
  -- The texts that the range returns at a time.
  unfoldable pub fetched : Time → S → List String
  fetched instant s = (fetch_ready client codec instant s).0.0

module _ {S : Type 0} (client : RedisClient S) (codec : JobCodec) (redis : Documented client) where
  promote_text :
      (text : String) (s : S) (j : IsJobText codec text)
      → promote client codec text s
        ≡ (client.zrem delayed_key text (client.lpush (get_queue_name j.0.priority) text s).1).1
  unfolding promote promote_decoded push_job
  promote_text text s (job, decodes, encodes) =
      rw (decodes, promote_decoded)
        (rw (encodes, push_job) (rw (redis.lpush_result (get_queue_name job.priority) text s)))

  promote-entries :
      (text : String) (s : S) (name : String)
      → IsJobText codec text
      → redis.entries (promote client codec text s) name
        ≡ redis.entries s name ++ (if belongs codec name text then text ∷ [] else [])
  promote-entries text s name j =
      rw (promote_text text s j, redis.zrem_entries, redis.lpush_entries, j.1)
        (elim (Bool-cases (get_queue_name j.0.priority == name)) [
          | inl e ↦ rw e
          | inr e ↦ rw e (sym (append-nil (redis.entries s name)))
        ])

  promote-score :
      (text : String) (s : S) (m : String)
      → IsJobText codec text
      → redis.score (promote client codec text s) delayed_key m
        ≡ (if text == m then none else redis.score s delayed_key m)
  promote-score text s m j = rw (promote_text text s j, redis.zrem_score, redis.lpush_score)

  pub promote_all-entries :
      (texts : List String) (s : S) (name : String)
      → All (IsJobText codec) texts
      → redis.entries (promote_all client codec texts s) name
        ≡ redis.entries s name ++ select (belongs codec name) texts
  unfolding promote_all
  promote_all-entries [] s name h = sym (append-nil (redis.entries s name))
  promote_all-entries (text ∷ texts) s name h =
      promote_all-entries texts (promote client codec text s) name h.1
      ∙ ap (λ (l : List String). l ++ select (belongs codec name) texts)
          (promote-entries text s name h.0)
      ∙ append_assoc (redis.entries s name) (if belongs codec name text then text ∷ [] else [])
          (select (belongs codec name) texts)
      ∙ ap (λ (l : List String). redis.entries s name ++ l)
          (if-append (belongs codec name text) text (select (belongs codec name) texts)
            ∙ sym (select-cons (belongs codec name) text texts))

  pub promote_all-score :
      (texts : List String) (s : S) (m : String)
      → All (IsJobText codec) texts
      → redis.score (promote_all client codec texts s) delayed_key m
        ≡ (if elem m texts then none else redis.score s delayed_key m)
  unfolding promote_all
  promote_all-score [] s m h = refl
  promote_all-score (text ∷ texts) s m h =
      promote_all-score texts (promote client codec text s) m h.1
      ∙ ap (λ o. if elem m texts then none else o) (promote-score text s m h.0)
      ∙ if-or (text == m) (elem m texts) (redis.score s delayed_key m)

  abbrev pub ready_at : Time → S → String → Bool
  ready_at instant s text = within (pos 0) (unix instant) (redis.score s delayed_key text)

  -- Every delayed text that is ready stands for a job.
  abbrev pub AreJobs : Time → S → Type 0
  AreJobs instant s = (text : String) → ready_at instant s text ≡ true → IsJobText codec text

  fetched-occurrences :
      (instant : Time) (s : S) (text : String)
      → occurrences text (fetched client codec instant s)
        ≡ (if ready_at instant s text then 1 else 0)
  unfolding fetched fetch_ready
  fetched-occurrences instant s text =
      redis.zrange_members delayed_key (pos 0) (unix instant) s text

  pub fetched-elem :
      (instant : Time) (s : S) (text : String)
      → elem text (fetched client codec instant s) ≡ ready_at instant s text
  fetched-elem instant s text =
      elem-occurrences text (fetched client codec instant s) (ready_at instant s text)
        (fetched-occurrences instant s text)

  pub fetched-jobs :
      (instant : Time) (s : S)
      → AreJobs instant s
      → All (IsJobText codec) (fetched client codec instant s)
  fetched-jobs instant s jobs =
      All-of_elem (IsJobText codec) (fetched client codec instant s)
        (λ t e. jobs t (sym (fetched-elem instant s t) ∙ e))

  process_delayed_jobs-promote_all :
      (r : Runtime) (s : S)
      → process_delayed_jobs client codec (r, s)
        ≡ (none, ((now r).1, promote_all client codec (fetched client codec (now r).0 s) s))
  unfolding process_delayed_jobs fetched fetch_ready after_fetch now
  process_delayed_jobs-promote_all r s =
      let e = redis.zrange_error delayed_key (pos 0) (unix (now r).0) s in
      let k = redis.zrange_state delayed_key (pos 0) (unix (now r).0) s in rw (e, after_fetch, k)

  -- `texts` are the texts that are ready, each of them once.
  pub record Moves (instant : Time) (before after : S) : Type 0 where
    pub texts : List String
    pub ready :
        (text : String) → occurrences text texts ≡ (if ready_at instant before text then 1 else 0)
    pub delayed :
        (text : String)
        → redis.score after delayed_key text
          ≡ (if ready_at instant before text then none else redis.score before delayed_key text)
    pub lanes :
        (name : String)
        → redis.entries after name ≡ redis.entries before name ++ select (belongs codec name) texts

  -- With a Redis server that does what is documented, and if every delayed text that is ready
  -- stands for a job and is what the job is marshalled to: ProcessDelayedJobs returns no error,
  -- exactly the texts that are ready leave the delayed jobs, and each goes once to the end of the
  -- lane of its job.
  pub process_delayed_jobs-Moves :
      (r : Runtime) (s : S)
      → AreJobs (now r).0 s
      → let (err, (r', s')) = process_delayed_jobs client codec (r, s) in
        (err ≡ none) × (r' ≡ (now r).1) × Moves (now r).0 s s'
  process_delayed_jobs-Moves r s jobs = rw (process_delayed_jobs-promote_all r s) (
    refl,
    refl,
    record {
      texts = fetched client codec (now r).0 s;
      ready = fetched-occurrences (now r).0 s;
      delayed = λ text.
          promote_all-score (fetched client codec (now r).0 s) s text
            (fetched-jobs (now r).0 s jobs)
          ∙ ap (λ b. if b then none else redis.score s delayed_key text)
              (fetched-elem (now r).0 s text);
      lanes = λ name.
          promote_all-entries (fetched client codec (now r).0 s) s name
            (fetched-jobs (now r).0 s jobs);
    },
  )
