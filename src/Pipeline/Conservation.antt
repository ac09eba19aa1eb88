-- ===== src/Pipeline/Conservation.antt =====
-- Each call that internal/core/services makes keeps every job of a memory queue
-- (internal/adapters/secondary/queue/memory.go) in its one place.
use job_schedular_service.Base.{
  ◌<◌, ◌+◌, ◌≡◌, ap, ◌∙◌, some, List, [], ◌∷◌, ◌++◌, arith, nat_eqb, nat_eqb_iff, inl, inr, All,
  All-mono, subst,
}
use job_schedular_service.Base.Map.{Map, get, put, contains, get-put, nat_key, int_key}
use job_schedular_service.Domain.Priority.{Priority}
use job_schedular_service.Domain.Retry.{Time}
use job_schedular_service.Domain.Job.{Uuid}
use job_schedular_service.Runtime.{JobRef}
use job_schedular_service.Memory.Queue.{
  queued, enqueue, dequeue, enqueue_delayed, move_to_dead_letter,
}
use job_schedular_service.Memory.Queue.Order.{dequeue_from-Served}
use job_schedular_service.Memory.Queue.Reachable.{
  IsSound, Step-IsSound, enqueues, dequeues, delays, buries as queue_buries,
}
use job_schedular_service.Pipeline.{Pipeline, Held, count, held_count, one_if, places, taken}
use job_schedular_service.Pipeline.Lanes.{count-append, held_count-middle, lane_count-put}

-- A held job is the one that the queue knows under its id.
abbrev IsHeld : Map Uuid JobRef → Held → Type 0
IsHeld jobs (id, p) = get jobs id ≡ some p

-- What holds of the queue and its workers between two steps.
pub record IsConserved (s : Pipeline) : Type 0 where
  pub queue : IsSound s.queue
  pub held : All (IsHeld s.queue.1.job_storage) s.held
  pub placed : (id : Uuid) → places id s ≡ count id s.scheduled
  pub known : (id : Uuid) → count id s.scheduled ≡ one_if (contains s.queue.1.job_storage id)

held_put :
    (p : JobRef) (s : Pipeline) (id : Uuid)
    → count id s.scheduled ≡ 0
    → IsConserved s
    → All (IsHeld (put s.queue.1.job_storage id p)) s.held
held_put p s id z h =
    All-mono (IsHeld s.queue.1.job_storage) _ s.held
      (λ k e.
        ground
          (arith, get-put s.queue.1.job_storage id k.0 p, h.known id, z, e, nat_eqb_iff id k.0))
      h.held

known_put :
    (p : JobRef) (s : Pipeline) (j : Uuid)
    → count j s.scheduled ≡ 0
    → IsConserved s
    → (id : Uuid)
    → count id (j ∷ s.scheduled) ≡ one_if (contains (put s.queue.1.job_storage j p) id)
known_put p s j z h id =
    ground (arith, get-put s.queue.1.job_storage j id p, h.known id, z, nat_eqb_iff j id)

pub schedules-IsConserved :
    (p : JobRef) (s : Pipeline)
    → p < s.queue.0.next
    → count (s.queue.0.cells p).id s.scheduled ≡ 0
    → IsConserved s
    → IsConserved (record s {
      queue = (enqueue p s.queue).1;
      scheduled = (s.queue.0.cells p).id ∷ s.scheduled;
    })
unfolding enqueue
schedules-IsConserved p s lt fresh_id h =
    let job = s.queue.0.cells p in
    let m = s.queue.1 in
    record {
      queue = Step-IsSound s.queue _ (enqueues p lt) h.queue;
      held = held_put p s (s.queue.0.cells p).id fresh_id h;
      placed = λ id. ground (
        arith,
        h.placed id,
        lane_count-put id m.queues job.priority (queued m.queues job.priority ++ job.id ∷ [])
            h.queue.well_formed.lanes,
        count-append id (queued m.queues job.priority) (job.id ∷ []),
        nat_eqb_iff job.id id,
      );
      known = known_put p s job.id fresh_id h;
    }

pub schedules_later-IsConserved :
    (p : JobRef) (at : Time) (s : Pipeline)
    → p < s.queue.0.next
    → count (s.queue.0.cells p).id s.scheduled ≡ 0
    → IsConserved s
    → IsConserved (record s {
      queue = (enqueue_delayed p at s.queue).1;
      scheduled = (s.queue.0.cells p).id ∷ s.scheduled;
    })
unfolding enqueue_delayed
schedules_later-IsConserved p at s lt fresh_id h =
    let job = s.queue.0.cells p in
    let m = s.queue.1 in
    record {
      queue = Step-IsSound s.queue _ (delays p at lt) h.queue;
      held = held_put p s (s.queue.0.cells p).id fresh_id h;
      placed = λ id. ground (
        arith,
        h.placed id,
        h.placed job.id,
        h.known job.id,
        fresh_id,
        get-put m.delayed_jobs job.id id at,
        nat_eqb_iff job.id id,
      );
      known = known_put p s job.id fresh_id h;
    }

pub takes-IsConserved :
    (priorities : List Priority) (s : Pipeline)
    → IsConserved s
    → IsConserved (record s {
      queue = (dequeue priorities s.queue).1;
      held = taken s.queue.0 (dequeue priorities s.queue).0.0 s.held;
    })
unfolding dequeue
takes-IsConserved ps s h = elim (dequeue_from-Served s.queue.0 s.queue.1 ps h.queue.well_formed) [
  | inl (e, f) ↦ rw f h
  | inr (f, e) ↦
      let same = h.queue.well_formed.keyed f.job_id f.job f.known in
      rw e (record {
        queue =
            subst IsSound (ap (λ x. (s.queue.0, x.2)) e)
              (Step-IsSound s.queue _ (dequeues ps) h.queue);
        held = (rw same f.known, h.held);
        placed = λ id. ground (
          arith,
          h.placed id,
          lane_count-put id s.queue.1.queues f.priority f.rest h.queue.well_formed.lanes,
          f.first,
          same,
        );
        known = h.known;
      })
]

module _ {A : Type 0} (P : A → Type 0) where
  All-middle :
      (before after : List A) (x : A) → All P (before ++ x ∷ after) → P x × All P (before ++ after)
  All-middle [] after x h = h
  All-middle (y ∷ before) after x h =
      let rest = All-middle before after x h.1 in (rest.0, (h.0, rest.1))

module _ (s : Pipeline) (before after : List Held) (k : Held) (e : s.held ≡ before ++ k ∷ after)
    (h : IsConserved s) where
  still-IsHeld :
      IsHeld s.queue.1.job_storage k × All (IsHeld s.queue.1.job_storage) (before ++ after)
  still-IsHeld =
      All-middle (IsHeld s.queue.1.job_storage) before after k
        (subst (All (IsHeld s.queue.1.job_storage)) e h.held)

  held_count-rest :
      (id : Uuid) → held_count id s.held ≡ one_if (nat_eqb k.0 id) + held_count id (before ++ after)
  held_count-rest id = ap (held_count id) e ∙ held_count-middle id before after k

  pub completes-IsConserved :
      IsConserved (record s { held = before ++ after; completed = s.completed ++ k.0 ∷ [] })
  completes-IsConserved = record {
    queue = h.queue;
    held = still-IsHeld.1;
    placed = λ id.
        omega (arith, h.placed id, held_count-rest id, count-append id s.completed (k.0 ∷ []));
    known = h.known;
  }

  same_id : (s.queue.0.cells k.1).id ≡ k.0
  same_id = h.queue.well_formed.keyed k.0 k.1 still-IsHeld.0

  pub buries-IsConserved :
      IsConserved (record s { held = before ++ after; queue = (move_to_dead_letter k.1 s.queue).1 })
  unfolding move_to_dead_letter
  buries-IsConserved = record {
    queue = Step-IsSound s.queue _ (queue_buries k.1) h.queue;
    held = still-IsHeld.1;
    placed = λ id. ground (
      arith,
      h.placed id,
      held_count-rest id,
      count-append id s.queue.1.dead_letter ((s.queue.0.cells k.1).id ∷ []),
      same_id,
    );
    known = h.known;
  }

  pub retries-IsConserved :
      (at : Time)
      → IsConserved
          (record s { held = before ++ after; queue = (enqueue_delayed k.1 at s.queue).1 })
  unfolding enqueue_delayed
  retries-IsConserved at =
      let m = s.queue.1 in
      let id = (s.queue.0.cells k.1).id in
      record {
        queue =
            Step-IsSound s.queue _ (delays k.1 at (h.queue.made k.0 k.1 still-IsHeld.0)) h.queue;
        held =
            All-mono (IsHeld s.queue.1.job_storage) _ (before ++ after)
              (λ j e. ground (
                arith,
                get-put m.job_storage id j.0 k.1,
                e,
                still-IsHeld.0,
                same_id,
                nat_eqb_iff id j.0,
              ))
              still-IsHeld.1;
        placed = λ j. ground (
          arith,
          h.placed j,
          held_count-rest j,
          h.known j,
          get-put m.delayed_jobs id j at,
          still-IsHeld.0,
          same_id,
          nat_eqb_iff k.0 j,
        );
        known = λ j. ground (
          arith,
          h.known j,
          get-put m.job_storage id j k.1,
          still-IsHeld.0,
          same_id,
          nat_eqb_iff k.0 j,
        );
      }
