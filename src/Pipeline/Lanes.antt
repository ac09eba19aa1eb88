-- ===== src/Pipeline/Lanes.antt =====
-- How often an id stands in the lanes and among the delayed jobs of a memory queue
-- (internal/adapters/secondary/queue/memory.go), after its operations.
use job_schedular_service.Base.{
  ℕ, ◌+◌, ◌≡◌, refl, ◌∙◌, true, List, [], ◌∷◌, ◌++◌, arith, nat_eqb, nat_eqb_iff, int_eqb_iff,
  Option-cases, Bool-cases, leb_ℤ, select-cons, inl, inr,
}
use job_schedular_service.Base.Map.{
  Map, get, put, delete, contains, get-delete, IsMap, nat_key, int_key,
}
use job_schedular_service.Domain.Priority.{Priority}
use job_schedular_service.Domain.Retry.{Time}
use job_schedular_service.Domain.Job.{Uuid}
use job_schedular_service.Runtime.{Runtime}
use job_schedular_service.Memory.Queue.{
  MemoryQueue, queued, activate, activate_all, ready_jobs, is_due,
}
use job_schedular_service.Memory.Queue.Invariant.{IsWellFormed, activate-IsWellFormed}
use job_schedular_service.Pipeline.{count, lane_count, held_count, Held, one_if}

pub count-append : (id : Uuid) (xs ys : List Uuid) → count id (xs ++ ys) ≡ count id xs + count id ys
count-append id [] ys = omega arith
count-append id (x ∷ xs) ys = omega (arith, count-append id xs ys)

pub held_count-middle :
    (id : Uuid) (before after : List Held) (h : Held)
    → held_count id (before ++ h ∷ after)
      ≡ one_if (nat_eqb h.0 id) + held_count id (before ++ after)
held_count-middle id [] after h = refl
held_count-middle id (x ∷ before) after h = omega (arith, held_count-middle id before after h)

lane_count-delete :
    (id : Uuid) (queues : Map Priority (List Uuid)) (p : Priority)
    → IsMap queues
    → lane_count id (delete queues p) + count id (queued queues p) ≡ lane_count id queues
unfolding lane_count delete queued get
lane_count-delete id [] p h = omega arith
lane_count-delete id ((q, ids) ∷ queues) p h =
    ground (arith, lane_count-delete id queues p h.1, int_eqb_iff q p, h.0)

pub lane_count-put :
    (id : Uuid) (queues : Map Priority (List Uuid)) (p : Priority) (ids : List Uuid)
    → IsMap queues
    → lane_count id (put queues p ids) + count id (queued queues p)
      ≡ lane_count id queues + count id ids
unfolding lane_count put
lane_count-put id queues p ids h = omega (arith, lane_count-delete id queues p h)

-- The ids that wait in a lane or for their time.
abbrev pub waiting : Uuid → MemoryQueue → ℕ
waiting id m = lane_count id m.queues + one_if (contains m.delayed_jobs id)

-- The ids are delayed, and each stands in the list once.
abbrev pub AreDelayed : List Uuid → Map Uuid Time → Type 0
AreDelayed [] delayed = Unit {0}
AreDelayed (id ∷ ids) delayed = (contains delayed id ≡ true) × AreDelayed ids (delete delayed id)

activate-waiting :
    (id j : Uuid) (r : Runtime) (m : MemoryQueue)
    → IsWellFormed r m
    → contains m.delayed_jobs j ≡ true
    → (waiting id (activate j (r, m)).1 ≡ waiting id m)
      × ((activate j (r, m)).1.delayed_jobs ≡ delete m.delayed_jobs j)
unfolding activate
activate-waiting id j r m h d = elim (Option-cases (get m.job_storage j)) [
  | inl e ↦ absurd (let k = h.delayed j d in ground (arith, e, k))
  | inr (p, e) ↦
      rw (e, activate)
        (
          ground (
            arith,
            lane_count-put id m.queues (r.cells p).priority
                (queued m.queues (r.cells p).priority ++ j ∷ []) h.lanes,
            count-append id (queued m.queues (r.cells p).priority) (j ∷ []),
            get-delete m.delayed_jobs j id,
            nat_eqb_iff j id,
            d,
          ),
          refl,
        )
]

pub activate_all-waiting :
    (ids : List Uuid) (id : Uuid) (r : Runtime) (m : MemoryQueue)
    → IsWellFormed r m
    → AreDelayed ids m.delayed_jobs
    → waiting id (activate_all ids (r, m)).1 ≡ waiting id m
unfolding activate_all
activate_all-waiting [] id r m h d = refl
activate_all-waiting (j ∷ ids) id r m h d =
    let first = activate-waiting id j r m h d.0 in
    activate_all-waiting ids id (activate j (r, m)).0 (activate j (r, m)).1
      (activate-IsWellFormed j r m h) (rw first.1 d.1)
    ∙ first.0

AreDelayed-ready_cons :
    (instant : Time) (j : Uuid) (t : Time) (entries delayed : Map Uuid Time)
    → ((contains delayed j ≡ true) × AreDelayed (ready_jobs instant entries) (delete delayed j))
    → AreDelayed (ready_jobs instant entries) delayed
    → AreDelayed (ready_jobs instant ((j, t) ∷ entries)) delayed
unfolding ready_jobs
AreDelayed-ready_cons instant j t entries delayed due late = elim (Bool-cases (leb_ℤ t instant)) [
  | inl e ↦ rw (select-cons (is_due instant) (j, t) entries, e) due
  | inr e ↦ rw (select-cons (is_due instant) (j, t) entries, e) late
]

pub ready_jobs-AreDelayed :
    (instant : Time) (entries delayed : Map Uuid Time)
    → IsMap entries
    → ((id : Uuid) → contains entries id ≡ true → contains delayed id ≡ true)
    → AreDelayed (ready_jobs instant entries) delayed
unfolding get ready_jobs
ready_jobs-AreDelayed instant [] delayed once all = tt
ready_jobs-AreDelayed instant ((j, t) ∷ entries) delayed once all =
    AreDelayed-ready_cons instant j t entries delayed
      (
        all j (ground (arith, nat_eqb_iff j j)),
        ready_jobs-AreDelayed instant entries (delete delayed j) once.1
            (λ id c. ground (arith, get-delete delayed j id, all id, nat_eqb_iff j id, once.0, c)),
      )
      (ready_jobs-AreDelayed instant entries delayed once.1
        (λ id c. ground (arith, all id, nat_eqb_iff j id, once.0, c)))
