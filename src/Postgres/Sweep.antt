-- ===== src/Postgres/Sweep.antt =====
-- The heartbeats and the sweep of internal/adapters/secondary/storage/postgres.go.
use mathlib.Core.Option
use mathlib.Core.Option.{some-injective}
use job_schedular_service.Base.{
  pos, ◌≡◌, refl, ap, ◌∙◌, sym, String, Bool, true, false, ◌&&◌, not, Option, none, some, List, [],
  ◌∷◌, map, Result, ok, All, All-mono, if◌then◌else◌, wrap64, ◌+ℤ◌, ◌-ℤ◌, arith,
}
use job_schedular_service.Base.Map.{◌==◌, string_key}
use job_schedular_service.Domain.Retry.{Time, Duration}
use job_schedular_service.Domain.Job.{JobType, Error}
use job_schedular_service.Ports.{Worker}
use job_schedular_service.Runtime.{Runtime, now}
use job_schedular_service.Postgres.{WorkerModel, Database, FieldCodec}
use job_schedular_service.Postgres.Workers.{
  worker_entry, worker_entries, with_result, get_active_workers, deactivate_stale_workers,
  update_worker_heartbeat,
}
use job_schedular_service.Postgres.WorkerTable.{
  is_active, keep_if, with_id, is_stale, swept, beaten, DocumentedWorkers,
}

-- The active rows that are no staler than the cutoff.
abbrev pub is_fresh : Time → WorkerModel → Bool
is_fresh cutoff m = is_active m && not (is_stale cutoff m)

keep-choose :
    (stale active : Bool) (m n : WorkerModel)
    → is_active m ≡ active
    → is_active n ≡ false
    → keep_if is_active (some (if stale && active then n else m))
      ≡ (if active && not stale then some m else none)
keep-choose true true m n a b = ap (λ x. if x then some n else none) b
keep-choose true false m n a b = ap (λ x. if x then some m else none) a
keep-choose false true m n a b = ap (λ x. if x then some m else none) a
keep-choose false false m n a b = ap (λ x. if x then some m else none) a

keep-swept :
    (cutoff : Time) (o : Option WorkerModel)
    → keep_if is_active (Option.map (swept cutoff) o) ≡ keep_if (is_fresh cutoff) o
keep-swept cutoff none = refl
keep-swept cutoff (some m) =
    keep-choose (is_stale cutoff m) (is_active m) m (record m { status = "inactive" }) refl refl

choose-inactive :
    (stale active : Bool) (m n : WorkerModel)
    → stale ≡ true
    → is_active m ≡ active
    → is_active n ≡ false
    → is_active (if stale && active then n else m) ≡ false
choose-inactive true true m n s a b = b
choose-inactive true false m n s a b = a
choose-inactive false active m n s a b = cc

beaten-gone :
    (at : Time) (b : Bool) (m : WorkerModel) (o : Option WorkerModel)
    → o ≡ some m
    → is_active m ≡ false
    → keep_if is_active (if b then Option.map (beaten at) o else o) ≡ none
beaten-gone at true m o e a = rw e (ap (λ x. if x then some (beaten at m) else none) a)
beaten-gone at false m o e a = rw e (ap (λ x. if x then some m else none) a)

types-swept :
    (cutoff : Time) (m : WorkerModel) → (swept cutoff m).supported_types ≡ m.supported_types
types-swept cutoff m = ground arith

module _ {D : Type 0} (db : Database D) (codec : FieldCodec) where
  abbrev pub entry : (String → List JobType) → WorkerModel → Worker
  entry types m = worker_entry m (types m.supported_types)

  worker_entries-read :
      (types : String → List JobType) (ms : List WorkerModel)
      → All (λ m. codec.unmarshal_types m.supported_types ≡ ok (types m.supported_types)) ms
      → worker_entries db codec ms ≡ ok (map (entry types) ms)
  unfolding worker_entries
  worker_entries-read types [] h = refl
  worker_entries-read types (m ∷ ms) h = rw (h.0, worker_entries-read types ms h.1) refl

module _ {D : Type 0} (db : Database D) (codec : FieldCodec) (table : DocumentedWorkers db)
    (types : String → List JobType) where
  -- The types of every worker can be read.
  abbrev pub AreReadable : D → Type 0
  AreReadable d =
      (id : String) (m : WorkerModel)
      → table.row d id ≡ some m
      → codec.unmarshal_types m.supported_types ≡ ok (types m.supported_types)

  get_active_workers-rows :
      (r : Runtime) (d : D)
      → AreReadable d
      → get_active_workers db codec (r, d)
        ≡ ((map (entry db codec types) (table.active_rows d), none), (r, d))
  unfolding get_active_workers
  get_active_workers-rows r d h = rw (table.find_active d) (
      ap (λ (x : Result (List Worker)). (with_result x, (r, d)))
        (worker_entries-read db codec types (table.active_rows d)
          (All-mono _ _ (table.active_rows d) (λ m k. h m.id m k) (table.active_known d))))

  abbrev pub cutoff : Duration → Runtime → Time
  cutoff timeout r = table.micros (r.clock r.reads +ℤ wrap64 (pos 0 -ℤ timeout))

  readable-swept :
      (at : Time) (id : String) (m : WorkerModel) (o : Option WorkerModel)
      → ((n : WorkerModel)
          → o ≡ some n
          → codec.unmarshal_types n.supported_types ≡ ok (types n.supported_types))
      → Option.map (swept at) o ≡ some m
      → codec.unmarshal_types m.supported_types ≡ ok (types m.supported_types)
  readable-swept at id m none h e = absurd (ground (arith, e))
  readable-swept at id m (some n) h e =
      let same : m.supported_types ≡ n.supported_types =
        ap (λ (k : WorkerModel). k.supported_types) (sym (some-injective (swept at n) m e))
        ∙ types-swept at n in
      rw same (h n refl)

  readable-beaten :
      (at : Time) (b : Bool) (m : WorkerModel) (o : Option WorkerModel)
      → ((n : WorkerModel)
          → o ≡ some n
          → codec.unmarshal_types n.supported_types ≡ ok (types n.supported_types))
      → (if b then Option.map (beaten at) o else o) ≡ some m
      → codec.unmarshal_types m.supported_types ≡ ok (types m.supported_types)
  readable-beaten at false m o h e = h m e
  readable-beaten at true m none h e = absurd (ground (arith, e))
  readable-beaten at true m (some n) h e =
      let same : m.supported_types ≡ n.supported_types =
        ap (λ (k : WorkerModel). k.supported_types) (sym (some-injective (beaten at n) m e)) in
      rw same (h n refl)

  -- With a database that does what is documented, whose workers have readable types: after
  -- DeactivateStaleWorkers, GetActiveWorkers returns the workers that were active and whose last
  -- heartbeat is no earlier than the cutoff, as the database keeps it.
  pub active_workers_after_sweep :
      (timeout : Duration) (r : Runtime) (d : D)
      → AreReadable d
      → let (err, s) = deactivate_stale_workers db codec timeout (r, d) in
        (err ≡ none)
        × ((ms : List WorkerModel) × ((get_active_workers db codec s).0
              ≡ (map (entry db codec types) ms, none))
            × ((id : String)
                → with_id id ms ≡ keep_if (is_fresh (cutoff timeout r)) (table.row d id)))
  unfolding deactivate_stale_workers now
  active_workers_after_sweep timeout r d h =
      let (err, (r', d')) = deactivate_stale_workers db codec timeout (r, d) in
      (
        table.update_error _ _ d,
        (
          table.active_rows d',
          ap (λ (x : (List Worker × Option Error) × (Runtime × D)). x.0)
              (get_active_workers-rows r' d' (λ id m k.
                readable-swept (cutoff timeout r) id m (table.row d id) (h id)
                  (sym (table.sweep_row _ d id) ∙ k))),
          λ id.
              table.active_exact d' id
              ∙ (ap (keep_if is_active) (table.sweep_row _ d id)
                  ∙ keep-swept (cutoff timeout r) (table.row d id)),
        ),
      )

  -- With a database that does what is documented, whose workers have readable types: a worker whose
  -- last heartbeat is before the cutoff when DeactivateStaleWorkers runs is not among the workers
  -- that GetActiveWorkers returns after its next heartbeat, which reports no error.
  pub swept_stays_out :
      (timeout : Duration) (worker_id : String) (r : Runtime) (d : D) (m : WorkerModel)
      → AreReadable d
      → table.row d worker_id ≡ some m
      → is_stale (cutoff timeout r) m ≡ true
      → let s = (deactivate_stale_workers db codec timeout (r, d)).1 in
        let (err, s') = update_worker_heartbeat db codec worker_id s in
        (err ≡ none)
        × ((ms : List WorkerModel) × ((get_active_workers db codec s').0
              ≡ (map (entry db codec types) ms, none))
            × (with_id worker_id ms ≡ none))
  unfolding deactivate_stale_workers update_worker_heartbeat now
  swept_stays_out timeout worker_id r d m h e stale =
      let (r', d') = (deactivate_stale_workers db codec timeout (r, d)).1 in
      let (r₂, d₂) = (update_worker_heartbeat db codec worker_id (r', d')).1 in
      let beat = table.heartbeat_row worker_id (r'.clock r'.reads) d' in
      (
        table.update_error _ _ d',
        (
          table.active_rows d₂,
          ap (λ (x : (List Worker × Option Error) × (Runtime × D)). x.0)
              (get_active_workers-rows r₂ d₂ (λ id m' k.
                readable-beaten (table.micros (r'.clock r'.reads)) (worker_id == id) m'
                  (table.row d' id)
                  (λ n k'.
                    readable-swept (cutoff timeout r) id n (table.row d id) (h id)
                      (sym (table.sweep_row _ d id) ∙ k'))
                  (sym (beat id) ∙ k))),
          table.active_exact d₂ worker_id
              ∙ (ap (keep_if is_active) (beat worker_id)
                  ∙ beaten-gone (table.micros (r'.clock r'.reads)) (worker_id == worker_id)
                      (swept (cutoff timeout r) m) (table.row d' worker_id)
                      (table.sweep_row _ d worker_id ∙ ap (Option.map (swept (cutoff timeout r))) e)
                      (choose-inactive (is_stale (cutoff timeout r) m) (is_active m) m
                        (record m { status = "inactive" }) stale refl refl)),
        ),
      )
