-- ===== src/Memory/Queue/Fifo.antt =====
-- Enqueue and Dequeue of internal/adapters/secondary/queue/memory.go: first in, first out.
use mathlib.Core.List.{append_assoc, append-nil}
use job_schedular_service.Base.{
  ℕ, zero, suc, ◌≡◌, refl, sym, ap, ◌∙◌, false, Option, some, List, [], ◌∷◌, ◌++◌, map, arith, All,
  length, int_eqb_iff, nat_eqb, nat_eqb_iff,
}
use job_schedular_service.Base.Map.{get, put, get-put, eqb_refl, nat_key, int_key}
use job_schedular_service.Domain.Priority.{Priority}
use job_schedular_service.Domain.Job.{Uuid}
use job_schedular_service.Runtime.{JobRef, Runtime}
use job_schedular_service.Memory.Queue.{MemoryQueue, State, queued, enqueue, dequeue_from, dequeue}
use job_schedular_service.Memory.Queue.Invariant.{queued-put}

-- One call of Enqueue for each job.
unfoldable pub enqueue_all : List JobRef → State → State
enqueue_all [] s = s
enqueue_all (p ∷ ps) s = enqueue_all ps (enqueue p s).1

-- What `n` calls of Dequeue return.
unfoldable pub dequeue_times : ℕ → List Priority → State → List (Option JobRef)
dequeue_times zero priorities s = []
dequeue_times (suc n) priorities s =
    let (found, s') = dequeue priorities s in found.0 ∷ dequeue_times n priorities s'

-- No id stands twice in the list.
abbrev pub IsDistinct : List Uuid → Type 0
IsDistinct [] = Unit
IsDistinct (id ∷ ids) = All (λ j. nat_eqb id j ≡ false) ids × IsDistinct ids

module _ (r : Runtime) where
  abbrev pub job_ids : List JobRef → List Uuid
  job_ids = map (λ p. (r.cells p).id)

  -- `id` is none of the jobs' ids, so their enqueueing leaves its entry alone.
  enqueue_all-other :
      (refs : List JobRef) (m : MemoryQueue) (id : Uuid)
      → All (λ j. nat_eqb id j ≡ false) (job_ids refs)
      → get (enqueue_all refs (r, m)).1.job_storage id ≡ get m.job_storage id
  unfolding enqueue_all enqueue
  enqueue_all-other [] m id h = refl
  enqueue_all-other (p ∷ refs) m id h =
      enqueue_all-other refs _ id h.1
      ∙ ground
          (arith, get-put m.job_storage (r.cells p).id id p, nat_eqb_iff (r.cells p).id id, h.0)

  module _ (p : Priority) where
    abbrev pub AllAt : List JobRef → Type 0
    AllAt = All (λ ref. (r.cells ref).priority ≡ p)

    enqueue_all-queued :
        (refs : List JobRef) (m : MemoryQueue)
        → AllAt refs
        → queued (enqueue_all refs (r, m)).1.queues p ≡ queued m.queues p ++ job_ids refs
    unfolding enqueue_all enqueue
    enqueue_all-queued [] m h = sym (append-nil (queued m.queues p))
    enqueue_all-queued (ref ∷ refs) m h =
        enqueue_all-queued refs _ h.1
        ∙ ap (λ ids. ids ++ job_ids refs)
            (ground (
              arith,
              h.0,
              queued-put m.queues (r.cells ref).priority p
                  (queued m.queues (r.cells ref).priority ++ (r.cells ref).id ∷ []),
              int_eqb_iff p p,
            ))
        ∙ append_assoc (queued m.queues p) ((r.cells ref).id ∷ []) (job_ids refs)

  enqueue_all-runtime :
      (refs : List JobRef) (m : MemoryQueue)
      → enqueue_all refs (r, m) ≡ (r, (enqueue_all refs (r, m)).1)
  unfolding enqueue_all enqueue
  enqueue_all-runtime [] m = refl
  enqueue_all-runtime (ref ∷ refs) m = enqueue_all-runtime refs _

  -- Each job is found under its id.
  enqueue_all-found :
      (refs : List JobRef) (m : MemoryQueue)
      → IsDistinct (job_ids refs)
      → All (λ ref. get (enqueue_all refs (r, m)).1.job_storage (r.cells ref).id ≡ some ref) refs
  unfolding enqueue_all enqueue
  enqueue_all-found [] m d = tt
  enqueue_all-found (ref ∷ refs) m d = (
    enqueue_all-other refs _ (r.cells ref).id d.0
        ∙ ground (
          arith,
          get-put m.job_storage (r.cells ref).id (r.cells ref).id ref,
          eqb_refl (r.cells ref).id,
        ),
    enqueue_all-found refs _ d.1,
  )

  dequeue_times-lane :
      (p : Priority) (ps : List Priority) (refs : List JobRef) (rest : List Uuid) (m : MemoryQueue)
      → queued m.queues p ≡ job_ids refs ++ rest
      → All (λ ref. get m.job_storage (r.cells ref).id ≡ some ref) refs
      → dequeue_times (length refs) (p ∷ ps) (r, m) ≡ map some refs
  unfolding dequeue_times dequeue
  dequeue_times-lane p ps [] rest m e k = refl
  dequeue_times-lane p ps (ref ∷ refs) rest m e k =
      rw (e, dequeue_from)
        (rw (k.0, dequeue_from)
          (ap (◌∷◌ (some ref)) (
            dequeue_times-lane p ps refs rest
              (record m { queues = put m.queues p (job_ids refs ++ rest) })
              (ground (arith, queued-put m.queues p p (job_ids refs ++ rest), int_eqb_iff p p))
              k.1)))

-- Jobs of one priority, enqueued in a row into an empty lane under different ids, are dequeued in
-- the order in which they were enqueued, whatever waits in the other lanes, as long as their lane
-- is asked for first.
pub fifo :
    (r : Runtime) (m : MemoryQueue) (p : Priority) (ps : List Priority) (refs : List JobRef)
    → queued m.queues p ≡ []
    → All (λ ref. (r.cells ref).priority ≡ p) refs
    → IsDistinct (map (λ ref. (r.cells ref).id) refs)
    → dequeue_times (length refs) (p ∷ ps) (enqueue_all refs (r, m)) ≡ map some refs
fifo r m p ps refs e h d = rw (enqueue_all-runtime r refs m) (
    dequeue_times-lane r p ps refs [] (enqueue_all refs (r, m)).1
      (enqueue_all-queued r p refs m h ∙ rw e (sym (append-nil (job_ids r refs))))
      (enqueue_all-found r refs m d))
