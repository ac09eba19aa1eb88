-- ===== src/Redis/Lanes.antt =====
-- Enqueue and Dequeue of internal/adapters/secondary/queue/redis.go: lanes of jobs, one for each name
-- of a queue, over lists of texts.
use job_schedular_service.Base.{
  ◌≡◌, refl, sym, ap, ◌∙◌, subst, String, Option, none, some, List, [], ◌∷◌, ◌++◌, map, ok, All,
  if◌then◌else◌, Bool-cases, List-cases, ◌⊎◌, inl, inr,
}
use job_schedular_service.Base.Map.{◌==◌, string_key}
use job_schedular_service.Domain.Priority.{Priority}
use job_schedular_service.Domain.Job.{Job, Error}
use job_schedular_service.Runtime.{JobRef, Runtime, allocate, store_self}
use job_schedular_service.Redis.{
  RedisClient, JobCodec, Popped, popped, nothing, get_queue_name, push_job, enqueue, after_brpop,
  dequeue,
}
use job_schedular_service.Redis.Commands.{Documented}

-- A text in a list and the job that it stands for.
pub record Message (codec : JobCodec) : Type 0 where
  pub text : String
  pub job : Job
  pub decodes : codec.unmarshal text ≡ ok job

-- The jobs in each queue, the oldest first.
abbrev pub Lanes : JobCodec → Type 0
Lanes codec = String → List (Message codec)

module _ {S : Type 0} (client : RedisClient S) (codec : JobCodec) (redis : Documented client) where
  -- The server holds the texts of the lanes' jobs.
  abbrev pub Holds : S → Lanes codec → Type 0
  Holds s lanes = (name : String) → redis.entries s name ≡ map (λ m. m.text) (lanes name)

  abbrev pub appended : String → Message codec → Lanes codec → Lanes codec
  appended key m lanes name = if key == name then lanes name ++ m ∷ [] else lanes name

  abbrev pub replaced : String → List (Message codec) → Lanes codec → Lanes codec
  replaced key rest lanes name = if key == name then rest else lanes name

  map-append_one :
      (ms : List (Message codec)) (m : Message codec)
      → map (λ m. m.text) (ms ++ m ∷ []) ≡ map (λ m. m.text) ms ++ m.text ∷ []
  map-append_one [] m = refl
  map-append_one (n ∷ ms) m = ap (◌∷◌ n.text) (map-append_one ms m)

  lpush-Holds :
      (key : String) (m : Message codec) (s : S) (lanes : Lanes codec)
      → Holds s lanes
      → Holds (client.lpush key m.text s).1 (appended key m lanes)
  lpush-Holds key m s lanes h name = elim (Bool-cases (key == name)) [
    | inl e ↦
        redis.lpush_entries key m.text s name ∙ rw (e, h name) (sym (map-append_one (lanes name) m))
    | inr e ↦ redis.lpush_entries key m.text s name ∙ rw (e, h name)
  ]

  -- The first lane that is not empty, in the order of the priorities asked for.
  pub record Found (lanes : Lanes codec) (priorities : List Priority) : Type 0 where
    pub before : List Priority
    pub priority : Priority
    pub after : List Priority
    pub message : Message codec
    pub rest : List (Message codec)
    pub asked : priorities ≡ before ++ priority ∷ after
    pub skipped : All (λ p. lanes (get_queue_name p) ≡ []) before
    pub first : lanes (get_queue_name priority) ≡ message ∷ rest

  -- What BRPOP does, in terms of the lanes.
  abbrev Takes : S → Lanes codec → List Priority → Popped × S → Type 0
  Takes s lanes priorities (result, s') =
      (All (λ p. lanes (get_queue_name p) ≡ []) priorities × (result ≡ nothing) × Holds s' lanes)
      ⊎ ((f : Found lanes priorities) × (result
            ≡ popped (get_queue_name f.priority ∷ f.message.text ∷ []))
          × Holds s' (replaced (get_queue_name f.priority) f.rest lanes))

  Takes-skip :
      (s : S) (lanes : Lanes codec) (p q : Priority) (ps : List Priority) (c : Popped × S)
      → lanes (get_queue_name p) ≡ []
      → Takes s lanes (q ∷ ps) c
      → Takes s lanes (p ∷ q ∷ ps) c
  Takes-skip s lanes p q ps c e (inl (all, r, h)) = inl ((e, all), r, h)
  Takes-skip s lanes p q ps c e (inr (f, r, h)) = inr (
    record {
      before = p ∷ f.before;
      priority = f.priority;
      after = f.after;
      message = f.message;
      rest = f.rest;
      asked = ap (◌∷◌ p) f.asked;
      skipped = (e, f.skipped);
      first = f.first;
    },
    r,
    h,
  )

  no_texts :
      (s : S) (lanes : Lanes codec) (p : Priority)
      → Holds s lanes
      → lanes (get_queue_name p) ≡ []
      → redis.entries s (get_queue_name p) ≡ []
  no_texts s lanes p h e = h (get_queue_name p) ∙ ap (map (λ m. m.text)) e

  taken :
      (p : Priority) (ps : List Priority) (s : S) (lanes : Lanes codec) (m : Message codec)
      (rest : List (Message codec))
      → Holds s lanes
      → lanes (get_queue_name p) ≡ m ∷ rest
      → Takes s lanes (p ∷ ps) (client.brpop (map get_queue_name (p ∷ ps)) s)
  taken p ps s lanes m rest h e = inr (
    record {
      before = [];
      priority = p;
      after = ps;
      message = m;
      rest = rest;
      asked = refl;
      skipped = tt;
      first = e;
    },
    redis.brpop_result key m.text (map get_queue_name ps) (map (λ m. m.text) rest) s texts,
    after,
  )
    where
      key : String
      key = get_queue_name p

      texts : redis.entries s key ≡ m.text ∷ map (λ m. m.text) rest
      texts = h key ∙ ap (map (λ m. m.text)) e

      after : Holds (client.brpop (map get_queue_name (p ∷ ps)) s).1 (replaced key rest lanes)
      after name = elim (Bool-cases (key == name)) [
        | inl e ↦
            redis.brpop_entries key m.text (map get_queue_name ps) (map (λ m. m.text) rest) s name
              texts
            ∙ rw e
        | inr e ↦
            redis.brpop_entries key m.text (map get_queue_name ps) (map (λ m. m.text) rest) s name
              texts
            ∙ rw (e, h name)
      ]

  brpop-Takes :
      (p : Priority) (ps : List Priority) (s : S) (lanes : Lanes codec)
      → Holds s lanes
      → Takes s lanes (p ∷ ps) (client.brpop (map get_queue_name (p ∷ ps)) s)
  brpop-Takes p [] s lanes h = elim (List-cases (lanes (get_queue_name p))) [
    | inl e ↦
        let empty = no_texts s lanes p h e in
        inl (
          (e, tt),
          redis.brpop_nothing _ s empty,
          λ name. redis.brpop_waits _ s name empty ∙ h name,
        )
    | inr (m, rest, e) ↦ taken p [] s lanes m rest h e
  ]
  brpop-Takes p (q ∷ ps) s lanes h = elim (List-cases (lanes (get_queue_name p))) [
    | inl e ↦
        rw
          (redis.brpop_skip (get_queue_name p) (get_queue_name q) (map get_queue_name ps) s
            (no_texts s lanes p h e))
          (Takes-skip s lanes p q ps _ e (brpop-Takes q ps s lanes h))
    | inr (m, rest, e) ↦ taken p (q ∷ ps) s lanes m rest h e
  ]

  -- With a Redis server that does what is documented, whose lists hold the texts of lanes of jobs:
  -- Enqueue of a job that can be marshalled and read back returns no error and puts the job at the
  -- end of the lane of its priority; no other lane changes.
  pub enqueue-Holds :
      (p : JobRef) (r : Runtime) (s : S) (lanes : Lanes codec) (m : Message codec)
      → Holds s lanes
      → r.cells p ≡ m.job
      → codec.marshal m.job ≡ ok m.text
      → let (err, (r', s')) = enqueue client codec p (r, s) in
        (err ≡ none) × (r' ≡ r) × Holds s' (appended (get_queue_name m.job.priority) m lanes)
  unfolding enqueue push_job
  enqueue-Holds p r s lanes m h cell e =
      let sent : push_job client codec (r.cells p) s
          ≡ client.lpush (get_queue_name m.job.priority) m.text s =
        rw (cell, e, push_job) in
      (
        ap (λ (c : Option Error × S). c.0) sent
            ∙ redis.lpush_result (get_queue_name m.job.priority) m.text s,
        refl,
        subst
            (λ (c : Option Error × S). Holds c.1 (appended (get_queue_name m.job.priority) m lanes))
            (sym sent) (lpush-Holds (get_queue_name m.job.priority) m s lanes h),
      )

  -- What Dequeue does, in terms of the lanes.
  abbrev pub Serves :
      Runtime
      → Lanes codec
      → List Priority
      → (Option JobRef × Option Error) × (Runtime × S)
      → Type 0
  Serves r lanes priorities (result, (r', s')) =
      (All (λ p. lanes (get_queue_name p) ≡ []) priorities
        × (result ≡ (none, some "no jobs available"))
        × (r' ≡ r)
        × Holds s' lanes)
      ⊎ ((f : Found lanes priorities) × (result ≡ (some r.next, none))
          × (r'.cells r.next ≡ f.message.job)
          × Holds s' (replaced (get_queue_name f.priority) f.rest lanes))

  served :
      (r : Runtime) (s : S) (lanes : Lanes codec) (priorities : List Priority) (c : Popped × S)
      → Takes s lanes priorities c
      → Serves r lanes priorities (after_brpop client codec c.0 (r, c.1))
  unfolding after_brpop allocate
  served r s lanes priorities c (inl (all, e, h)) = rw (e, after_brpop) (inl (all, refl, refl, h))
  served r s lanes priorities c (inr (f, e, h)) =
      rw (e, after_brpop)
        (rw (f.message.decodes, after_brpop)
          (inr (f, refl, store_self r.cells r.next f.message.job, h)))

  -- With a Redis server that does what is documented, whose lists hold the texts of lanes of jobs:
  -- Dequeue either finds all the lanes asked for empty, returns the error for that and changes no
  -- lane, or it returns a pointer to a new copy of the oldest job of the first lane that is not
  -- empty, and only that lane changes, by losing that job.
  pub dequeue-Serves :
      (p : Priority) (ps : List Priority) (r : Runtime) (s : S) (lanes : Lanes codec)
      → Holds s lanes
      → Serves r lanes (p ∷ ps) (dequeue client codec (p ∷ ps) (r, s))
  unfolding dequeue
  dequeue-Serves p ps r s lanes h =
      served r s lanes (p ∷ ps) (client.brpop (map get_queue_name (p ∷ ps)) s)
        (brpop-Takes p ps s lanes h)
