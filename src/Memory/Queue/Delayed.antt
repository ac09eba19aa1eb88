-- ===== src/Memory/Queue/Delayed.antt =====
-- ProcessDelayedJobs of internal/adapters/secondary/queue/memory.go.
use mathlib.Core.List.{append_assoc, append-nil}
use job_schedular_service.Base.{
  ◌≡◌, refl, sym, ap, fun_ext, ◌∙◌, Bool, true, false, ◌||◌, leb_ℤ, Option, none, some, List, [],
  ◌∷◌, ◌++◌, arith, All, select, select-cons, if◌then◌else◌, int_eqb, nat_eqb, nat_eqb_iff,
  int_eqb_iff, ◌⊎◌, Option-cases, inl, inr,
}
use job_schedular_service.Base.Map.{Map, get, get-delete, IsMap, contains, nat_key, int_key}
use job_schedular_service.Domain.Priority.{Priority}
use job_schedular_service.Domain.Retry.{Time}
use job_schedular_service.Domain.Job.{Uuid, status_pending}
use job_schedular_service.Runtime.{JobRef, Runtime, now, write, store}
use job_schedular_service.Memory.Queue.{
  MemoryQueue, State, queued, ready_jobs, activate, activate_all, process_delayed_jobs,
}
use job_schedular_service.Memory.Queue.Invariant.{IsWellFormed, IsKnown, queued-put}

-- `entries` lists the map `m`, each entry once, in any order.
pub record Ranges (entries m : Map Uuid Time) : Type 0 where
  pub once : IsMap entries
  pub same : (id : Uuid) → get entries id ≡ get m id

abbrev pub elem : Uuid → List Uuid → Bool
elem id [] = false
elem id (j ∷ ids) = nat_eqb j id || elem id ids

abbrev pub due : Time → Option Time → Bool
due instant none = false
due instant (some t) = leb_ℤ t instant

elem-ready_jobs :
    (instant : Time) (entries : Map Uuid Time) (id : Uuid)
    → IsMap entries
    → elem id (ready_jobs instant entries) ≡ due instant (get entries id)
unfolding ready_jobs get
elem-ready_jobs instant [] id h = refl
elem-ready_jobs instant ((j, t) ∷ entries) id h =
    ground (arith, elem-ready_jobs instant entries id h.1, nat_eqb_iff j id, h.0)

module _ (r : Runtime) (m : MemoryQueue) where
  activate-delayed :
      (j id : Uuid)
      → IsKnown m.job_storage j
      → get (activate j (r, m)).1.delayed_jobs id
        ≡ (if nat_eqb j id then none else get m.delayed_jobs id)
  unfolding activate
  activate-delayed j id k = ground (arith, get-delete m.delayed_jobs j id)

  activate-job_storage : (j : Uuid) → (activate j (r, m)).1.job_storage ≡ m.job_storage
  unfolding activate
  activate-job_storage j = ground arith

  -- Whether an id's job has the given priority.
  abbrev pub belongs : Priority → Uuid → Bool
  belongs p id = elim (get m.job_storage id) [
    | none ↦ false
    | some ref ↦ int_eqb (r.cells ref).priority p
  ]

  activate-queued :
      (j : Uuid) (p : Priority)
      → queued (activate j (r, m)).1.queues p
        ≡ queued m.queues p ++ (if belongs p j then j ∷ [] else [])
  unfolding activate
  activate-queued j p = elim (Option-cases (get m.job_storage j)) [
    | inl e ↦ rw (e, activate, belongs) (sym (append-nil (queued m.queues p)))
    | inr (ref, e) ↦
        rw (e, activate, belongs)
          (ground (
            arith,
            append-nil (queued m.queues p),
            int_eqb_iff (r.cells ref).priority p,
            queued-put m.queues (r.cells ref).priority p
                (queued m.queues (r.cells ref).priority ++ j ∷ []),
          ))
  ]

  -- An activation changes no job but for its status, which may become pending.
  activate-cells :
      (j : Uuid) (ref : JobRef)
      → let before = r.cells ref in
        let after = (activate j (r, m)).0.cells ref in
        after ≡ record before { status = after.status }
  unfolding activate write store
  activate-cells j ref = ground arith

activate-pending :
    (r : Runtime) (m : MemoryQueue) (j : Uuid) (ref : JobRef)
    → ((r.cells ref).status ≡ status_pending) ⊎ (get m.job_storage j ≡ some ref)
    → ((activate j (r, m)).0.cells ref).status ≡ status_pending
unfolding activate write store
activate-pending r m j ref h = ground (arith, nat_eqb_iff ref ref)

activate_all-delayed :
    (ids : List Uuid) (r : Runtime) (m : MemoryQueue) (id : Uuid)
    → All (IsKnown m.job_storage) ids
    → get (activate_all ids (r, m)).1.delayed_jobs id
      ≡ (if elem id ids then none else get m.delayed_jobs id)
unfolding activate_all
activate_all-delayed [] r m id k = refl
activate_all-delayed (j ∷ ids) r m id k =
    let (r', m') = activate j (r, m) in
    activate_all-delayed ids r' m' id (rw activate-job_storage k.1)
    ∙ ground (arith, activate-delayed r m j id k.0)

activate-belongs :
    (r : Runtime) (m : MemoryQueue) (j : Uuid) (p : Priority) (id : Uuid)
    → belongs (activate j (r, m)).0 (activate j (r, m)).1 p id ≡ belongs r m p id
unfolding activate write store
activate-belongs r m j p id = ground arith

append-if :
    (xs ys : List Uuid) (j : Uuid) (b : Bool)
    → (xs ++ (if b then j ∷ [] else [])) ++ ys ≡ xs ++ (if b then j ∷ ys else ys)
append-if xs ys j true = append_assoc xs (j ∷ []) ys
append-if xs ys j false = append_assoc xs [] ys

activate_all-queued :
    (ids : List Uuid) (r : Runtime) (m : MemoryQueue) (p : Priority)
    → queued (activate_all ids (r, m)).1.queues p ≡ queued m.queues p ++ select (belongs r m p) ids
unfolding activate_all
activate_all-queued [] r m p = sym (append-nil (queued m.queues p))
activate_all-queued (j ∷ ids) r m p =
    activate_all-queued ids _ _ p
    ∙ rw
        (
          fun_ext (activate-belongs r m j p),
          activate-queued r m j p,
          select-cons (belongs r m p) j ids,
        )
        (append-if (queued m.queues p) (select (belongs r m p) ids) j (belongs r m p j))

activate_all-pending :
    (ids : List Uuid) (r : Runtime) (m : MemoryQueue) (id : Uuid) (ref : JobRef)
    → get m.job_storage id ≡ some ref
    → ((r.cells ref).status ≡ status_pending) ⊎ (elem id ids ≡ true)
    → ((activate_all ids (r, m)).0.cells ref).status ≡ status_pending
unfolding activate_all
activate_all-pending [] r m id ref k (inl h) = h
activate_all-pending [] r m id ref k (inr h) = cc
activate_all-pending (j ∷ ids) r m id ref k h =
    activate_all-pending ids _ _ id ref (rw activate-job_storage k)
      (ground (arith, activate-pending r m j ref, nat_eqb_iff j id))

All-of_elem :
    (P : Uuid → Type 0) (ids : List Uuid) → ((id : Uuid) → elem id ids ≡ true → P id) → All P ids
All-of_elem P [] f = tt
All-of_elem P (j ∷ ids) f =
    (f j (ground (arith, nat_eqb_iff j j)), All-of_elem P ids (λ id e. f id (ground (arith, e))))

due-contains :
    (delayed : Map Uuid Time) (id : Uuid) (instant : Time)
    → due instant (get delayed id) ≡ true
    → contains delayed id ≡ true
due-contains delayed id instant h = ground arith

-- What ProcessDelayedJobs did to the queue `m`, from the runtime `r`, at the reading `instant`.
pub record Promotes (instant : Time) (entries : Map Uuid Time) (r : Runtime) (m : MemoryQueue)
    (s : State) : Type 0 where
  pub delayed :
      (id : Uuid)
      → get s.1.delayed_jobs id
        ≡ (if due instant (get m.delayed_jobs id) then none else get m.delayed_jobs id)
  pub lanes :
      (p : Priority)
      → queued s.1.queues p
        ≡ queued m.queues p ++ select (belongs r m p) (ready_jobs instant entries)
  pub pending :
      (id : Uuid) (ref : JobRef)
      → due instant (get m.delayed_jobs id) ≡ true
      → get m.job_storage id ≡ some ref
      → (s.0.cells ref).status ≡ status_pending

-- ProcessDelayedJobs on a well-formed queue, in whatever order Go ranges over the entries of the
-- map: exactly the delayed jobs whose time has come leave the delayed jobs, each id goes to the end
-- of the lane of its job's priority, and the job becomes pending.
pub process_delayed_jobs-Promotes :
    (range_order : Map Uuid Time → Map Uuid Time) (r : Runtime) (m : MemoryQueue)
    → IsWellFormed r m
    → Ranges (range_order m.delayed_jobs) m.delayed_jobs
    → Promotes
        (now r).0
        (range_order m.delayed_jobs)
        r
        m
        (process_delayed_jobs range_order (r, m)).1
unfolding process_delayed_jobs now
process_delayed_jobs-Promotes range_order r m h g = record {
  delayed = λ id. activate_all-delayed ids r' m id (All-of_elem _ ids known) ∙ rw (listed id);
  lanes = activate_all-queued ids r' m;
  pending = λ id ref d k. activate_all-pending ids r' m id ref k (inr (listed id ∙ d));
}
  where
    r' : Runtime
    r' = (now r).1

    ids : List Uuid
    ids = ready_jobs (now r).0 (range_order m.delayed_jobs)

    listed : (id : Uuid) → elem id ids ≡ due (now r).0 (get m.delayed_jobs id)
    listed id =
        elem-ready_jobs (now r).0 (range_order m.delayed_jobs) id g.once
        ∙ ap (due (now r).0) (g.same id)

    known : (id : Uuid) → elem id ids ≡ true → IsKnown m.job_storage id
    known id e = h.delayed id (due-contains m.delayed_jobs id (now r).0 (sym (listed id) ∙ e))
