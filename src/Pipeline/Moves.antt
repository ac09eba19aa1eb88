-- ===== src/Pipeline/Moves.antt =====
-- What the parts of internal/core/services/processor.go do to the jobs of a memory queue, one after the
-- other: each moves the pipeline from one state that it can reach to another.
use job_schedular_service.Base.{
  ◌≤◌, ◌<◌, ◌≡◌, refl, ◌∙◌, none, some, List, [], ◌∷◌, arith, Option, String, nat_eqb_iff,
}
use job_schedular_service.Base.Map.{string_key}
use job_schedular_service.Domain.Retry.{Time}
use job_schedular_service.Domain.Job.{Uuid, Job, Error}
use job_schedular_service.Runtime.{
  Action, ◌>>=◌, JobRef, Runtime, now, new_uuid, update, write, cells-write, since,
}
use job_schedular_service.Ports.{Port}
use job_schedular_service.Memory.Queue.{MemoryQueue, enqueue_delayed, move_to_dead_letter}
use job_schedular_service.Services.World.{World, on_runtime, on_storage, on_queue, log_if_failed}
use job_schedular_service.Pipeline.{Pipeline, Held, Reachable, later, others, retries, buries}

-- Jobs are made and changed, and no job changes its id.
pub record Keeps (r r' : Runtime) : Type 0 where
  pub made : r.next ≤ r'.next
  pub ids : (p : JobRef) → p < r.next → (r'.cells p).id ≡ (r.cells p).id

pub Keeps-refl : (r : Runtime) → Keeps r r
Keeps-refl r = record { made = omega arith; ids = λ p lt. refl }

pub Keeps-trans : (r s t : Runtime) → Keeps r s → Keeps s t → Keeps r t
Keeps-trans r s t h k = record {
  made = let a = h.made in let b = k.made in omega arith;
  ids = λ p lt. k.ids p (let a = h.made in omega arith) ∙ h.ids p lt;
}

abbrev pub IsKeeping : {A : Type 0} → Action Runtime A → Type 0
IsKeeping m = (r : Runtime) → Keeps r (m r).1

pub IsKeeping-bind :
    {A B : Type 0} (m : Action Runtime A) (f : A → Action Runtime B)
    → IsKeeping m
    → ((a : A) → IsKeeping (f a))
    → IsKeeping (m >>= f)
IsKeeping-bind m f h k r = Keeps-trans r (m r).1 _ (h r) (k (m r).0 (m r).1)

pub now-IsKeeping : IsKeeping now
unfolding now
now-IsKeeping r = record { made = omega arith; ids = λ p lt. refl }

pub new_uuid-IsKeeping : IsKeeping new_uuid
unfolding new_uuid
new_uuid-IsKeeping r = record { made = omega arith; ids = λ p lt. refl }

pub since-IsKeeping : (start : Time) → IsKeeping (since start)
unfolding since
since-IsKeeping start r = now-IsKeeping r

pub update-IsKeeping :
    (p : JobRef) (f : Job → Job) → ((job : Job) → (f job).id ≡ job.id) → IsKeeping (update p f)
unfolding update write
update-IsKeeping p f same r = record {
  made = omega arith;
  ids =
      λ q lt. ground (arith, cells-write p q (f (r.cells p)) r, same (r.cells p), nat_eqb_iff p q);
}

module _ {T : Type 0} where
  abbrev pub snapshot : World T MemoryQueue → List Held → List Uuid → List Uuid → Pipeline
  snapshot w held completed scheduled = record {
    queue = (w.runtime, w.queue);
    held = held;
    completed = completed;
    scheduled = scheduled;
  }

  -- From every state of the pipeline that is reached with the world `w`, another is reached with `w'`,
  -- in which the workers hold `after` in place of `before`, and the same jobs are completed.
  abbrev pub Evolves : List Held → List Held → World T MemoryQueue → World T MemoryQueue → Type 0
  Evolves before after w w' =
      (completed scheduled : List Uuid)
      → Reachable (snapshot w before completed scheduled)
      → Reachable (snapshot w' after completed scheduled)

  abbrev pub Moves : {A : Type 0} → List Held → List Held → Action (World T MemoryQueue) A → Type 0
  Moves before after m = (w : World T MemoryQueue) → Evolves before after w (m w).1

  pub Evolves-trans :
      (a b c : List Held) (u v w : World T MemoryQueue)
      → Evolves a b u v
      → Evolves b c v w
      → Evolves a c u w
  Evolves-trans a b c u v w h k completed scheduled r =
      k completed scheduled (h completed scheduled r)

  pub Moves-bind :
      {A B : Type 0} (a b c : List Held) (m : Action (World T MemoryQueue) A)
      (f : A → Action (World T MemoryQueue) B)
      → Moves a b m
      → ((x : A) → Moves b c (f x))
      → Moves a c (m >>= f)
  Moves-bind a b c m f h k w =
      Evolves-trans a b c w (m w).1 (f (m w).0 (m w).1).1 (h w) (k (m w).0 (m w).1)

  pub Moves-runtime :
      {A : Type 0} (hs : List Held) (m : Action Runtime A)
      → IsKeeping m
      → Moves hs hs (on_runtime m)
  Moves-runtime hs m h w completed scheduled r =
      later r (others (m w.runtime).1 (h w.runtime).made (h w.runtime).ids)

  pub Moves-storage :
      {A : Type 0} (hs : List Held) (m : Port T A)
      → ((s : Runtime × T) → Keeps s.0 (m s).1.0)
      → Moves hs hs (on_storage m)
  Moves-storage hs m h w completed scheduled r =
      let k = h (w.runtime, w.storage) in
      later r (others (m (w.runtime, w.storage)).1.0 k.made k.ids)

  -- Metrics and logs are no part of the pipeline.
  pub Moves-log :
      (hs : List Held) (message : String) (p : JobRef) (err : Option Error)
      → Moves hs hs (log_if_failed message p err)
  Moves-log hs message p none w completed scheduled r = r
  Moves-log hs message p (some e) w completed scheduled r = r

  pub Moves-retries :
      (k : Held) (hs : List Held) (at : Time)
      → Moves (k ∷ hs) hs (on_queue (enqueue_delayed k.1 at))
  Moves-retries k hs at w completed scheduled r = later r (retries [] hs k at refl)

  pub Moves-buries :
      (k : Held) (hs : List Held) → Moves (k ∷ hs) hs (on_queue (move_to_dead_letter k.1))
  Moves-buries k hs w completed scheduled r = later r (buries [] hs k refl)
