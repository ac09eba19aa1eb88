-- ===== src/Memory/Storage/Workers.antt =====
-- Registration, heartbeats and deactivation in internal/adapters/secondary/storage/memory.go.
use mathlib.Core.List.{mem-filter, mem-map}
use mathlib.Core.List.Perm
use mathlib.Core.Logic.{∥∥₁_elim}
use mathlib.Core.Option
use native.Mathlib.Bridge.{le_prop}
use job_schedular_service.Base.{
  suc, pos, ◌≡◌, refl, sym, ap, ◌∙◌, String, Bool, true, false, ◌&&◌, some, [], ◌∷◌, map, arith,
  ltb_ℤ, ◌+ℤ◌, ◌-ℤ◌, ◌≤ℤ◌, +ℤ_parts, -ℤ_parts, wrap64, wrap64_of_IsInt64, IsInt64, if◌then◌else◌,
  inl, inr, Bool-cases, Perm, Mem, subst, decided,
}
use job_schedular_service.Base.Map.{Map, get, put, get-put, eqb_refl, string_key}
use job_schedular_service.Domain.Retry.{Time, Duration}
use job_schedular_service.Ports.{Worker}
use job_schedular_service.Runtime.{Runtime, now}
use job_schedular_service.Memory.Storage.{
  MemoryStorage, update_worker_heartbeat, get_active_workers, is_active, deactivate,
  deactivate_stale_workers,
}

-- The time before which a heartbeat counts as stale.
abbrev pub cutoff_of : Time → Duration → Time
cutoff_of instant timeout = instant +ℤ wrap64 (pos 0 -ℤ timeout)

get-map :
    (f : Worker → Worker) (workers : Map String Worker) (id : String)
    → get (map (λ e. (e.0, f e.1)) workers) id ≡ Option.map f (get workers id)
unfolding get
get-map f [] id = refl
get-map f ((j, w) ∷ workers) id = ground (arith, get-map f workers id)

negated :
    (timeout : Duration)
    → pos 0 ≤ℤ timeout
    → IsInt64 timeout
    → wrap64 (pos 0 -ℤ timeout) ≡ pos 0 -ℤ timeout
negated timeout h i = wrap64_of_IsInt64 _ (unfold ◌-ℤ◌ in ground arith)

-- Within the timeout of a heartbeat the heartbeat is not before the cutoff.
within_timeout :
    (beat instant : Time) (timeout : Duration)
    → pos 0 ≤ℤ timeout
    → IsInt64 timeout
    → instant ≤ℤ beat +ℤ timeout
    → cutoff_of instant timeout ≤ℤ beat
within_timeout beat instant timeout h i soon = rw (negated timeout h i) (
    omega
      (arith, +ℤ_parts beat timeout, -ℤ_parts (pos 0) timeout, +ℤ_parts instant (pos 0 -ℤ timeout)))

deactivate_late :
    (cutoff : Time) (w : Worker) → cutoff ≤ℤ w.last_heartbeat → deactivate cutoff w ≡ w
unfolding deactivate
deactivate_late cutoff w h = ground arith

-- A sweep changes the entry of a worker exactly if it was active and its last heartbeat is before
-- the cutoff: then it is inactive, and nothing else of it changes; no worker is removed or added.
pub deactivate_stale_workers-get :
    (timeout : Duration) (r : Runtime) (m : MemoryStorage) (id : String)
    → get (deactivate_stale_workers timeout (r, m)).1.1.workers id
      ≡ Option.map
          (λ w.
            if ltb_ℤ w.last_heartbeat (cutoff_of (now r).0 timeout) && is_active w
            then record w { status = "inactive" }
            else w)
          (get m.workers id)
unfolding deactivate_stale_workers deactivate
deactivate_stale_workers-get timeout r m id = get-map _ m.workers id

-- A registered worker that sends a heartbeat is left as the heartbeat made it by a sweep whose
-- clock reading is at most the timeout later, for a timeout that is not negative and fits in 64
-- bits.
pub heartbeat_survives_sweep :
    (id : String) (w : Worker) (timeout : Duration) (r : Runtime) (m : MemoryStorage)
    → get m.workers id ≡ some w
    → pos 0 ≤ℤ timeout
    → IsInt64 timeout
    → r.clock (suc r.reads) ≤ℤ r.clock r.reads +ℤ timeout
    → get (deactivate_stale_workers timeout (update_worker_heartbeat id (r, m)).1).1.1.workers id
      ≡ some (record w { last_heartbeat = r.clock r.reads })
unfolding deactivate_stale_workers update_worker_heartbeat now
heartbeat_survives_sweep id w timeout r m e h i soon =
    rw (e, update_worker_heartbeat)
      (get-map _ (put m.workers id beaten) id
        ∙ rw (get-put m.workers id id beaten, eqb_refl id)
            (ap some (
              deactivate_late _ beaten
                (within_timeout (r.clock r.reads) (r.clock (suc r.reads)) timeout h i soon))))
  where
    beaten : Worker
    beaten = record w { last_heartbeat = r.clock r.reads }

module _ (cutoff : Time) where
  stale : Worker → Bool
  stale w = ltb_ℤ w.last_heartbeat cutoff && is_active w

  stale-deactivate :
      (w : Worker) → stale w ≡ true → deactivate cutoff w ≡ record w { status = "inactive" }
  unfolding stale deactivate
  stale-deactivate w h = rw h

  kept-deactivate : (w : Worker) → stale w ≡ false → deactivate cutoff w ≡ w
  unfolding stale deactivate
  kept-deactivate w h = rw h

  kept_late : (w : Worker) → stale w ≡ false → is_active w ≡ true → cutoff ≤ℤ w.last_heartbeat
  unfolding stale
  kept_late w h a = not_before (ltb_ℤ w.last_heartbeat cutoff) (is_active w) h a refl
    where
      not_before :
          (b c : Bool)
          → (b && c) ≡ false
          → c ≡ true
          → ltb_ℤ w.last_heartbeat cutoff ≡ b
          → cutoff ≤ℤ w.last_heartbeat
      not_before true true h k e = cc
      not_before true false h k e = cc
      not_before false c h k e = ground arith

  active_late :
      (w : Worker)
      → is_active (deactivate cutoff w) ≡ true
      → cutoff ≤ℤ (deactivate cutoff w).last_heartbeat
  active_late w a = elim (Bool-cases (stale w)) [
    | inl s ↦ cc (subst (λ v. is_active v ≡ true) (stale-deactivate w s) a)
    | inr k ↦
        rw (kept-deactivate w k)
          (kept_late w k (subst (λ v. is_active v ≡ true) (kept-deactivate w k) a))
  ]

-- After a sweep GetActiveWorkers, in whatever order Go ranges over the entries of the map, returns
-- no worker whose last heartbeat is before the cutoff.
pub active_after_sweep :
    (range_order : Map String Worker → Map String Worker) (timeout : Duration) (r : Runtime)
    (m : MemoryStorage) (w : Worker)
    → ((l : Map String Worker) → Perm (range_order l) l)
    → Mem w (get_active_workers range_order (deactivate_stale_workers timeout (r, m)).1).0.0
    → cutoff_of (now r).0 timeout ≤ℤ w.last_heartbeat
unfolding deactivate_stale_workers get_active_workers
active_after_sweep range_order timeout r m w perm h =
    let listed : Mem w (map (λ e. e.1) (range_order swept)) × (is_active w ≡ true) =
      (mem-filter (λ v. decided (is_active v))).0 h in
    let entry : Mem w (map (λ e. e.1) swept) =
      (Perm.mem_iff (Perm.map (λ e. e.1) (perm swept))).0 listed.0 in
    ∥∥₁_elim (mem-map.0 entry) le_prop λ (e, from_sweep, p).
      ∥∥₁_elim (mem-map.0 from_sweep) le_prop λ (old, _, q).
        let same : deactivate cutoff old.1 ≡ w = ap (λ (t : String × Worker). t.1) q ∙ p in
        subst (λ v. cutoff ≤ℤ v.last_heartbeat) same
          (active_late cutoff old.1 (subst (λ v. is_active v ≡ true) (sym same) listed.1))
  where
    cutoff : Time
    cutoff = cutoff_of (now r).0 timeout

    swept : Map String Worker
    swept = map (λ e. (e.0, deactivate cutoff e.1)) m.workers
