-- ===== src/Examples/Postgres/Workers.antt =====
-- Runs of internal/adapters/secondary/storage/postgres.go on a table with at most one worker.
use mathlib.Core.Option
use job_schedular_service.Base.{
  ℤ, pos, negsuc, ◌+ℤ◌, wrap64, ◌-ℤ◌, ◌≡◌, refl, ap, sym, ◌∙◌, String, Bool, true, false, ◌&&◌,
  Option, none, some, List, [], ◌∷◌, map, ok, All, if◌then◌else◌, arith, Bool-cases, inl, inr,
}
use job_schedular_service.Base.Map.{◌==◌, string_key, eqb_refl}
use job_schedular_service.Domain.Job.{JobType}
use job_schedular_service.Postgres.{WorkerModel, Database, Value, text, instant, missing}
use job_schedular_service.Postgres.Workers.{
  get_active_workers, deactivate_stale_workers, update_worker_heartbeat,
}
use job_schedular_service.Postgres.WorkerTable.{
  is_active, keep_if, with_id, is_stale, swept, beaten, DocumentedWorkers,
}
use job_schedular_service.Postgres.Sweep.{entry, swept_stays_out}
use job_schedular_service.Examples.{runtime}
use job_schedular_service.Examples.Postgres.{plain_codec, whole_micros, written}

abbrev Table : Type 0
Table = Option WorkerModel

-- What an update does to a row, by its condition.
abbrev change : List (String × List Value) → List (String × Value) → WorkerModel → WorkerModel
change ((c, instant at ∷ text s ∷ []) ∷ []) ((k, text v) ∷ []) m =
    if is_stale (whole_micros at) m && is_active m then record m { status = v } else m
change ((c, text id ∷ []) ∷ []) ((k, instant at) ∷ []) m =
    if id == m.id then beaten (whole_micros at) m else m
change conditions values m = m

abbrev rows : Table → List WorkerModel
rows none = []
rows (some m) = m ∷ []

abbrev active : Table → List WorkerModel
active none = []
active (some m) = if is_active m then m ∷ [] else []

-- There are no jobs, and every query of the workers is for the active ones.
unfoldable worker_db : Database Table
worker_db = record {
  auto_migrate = λ d. (none, d);
  save_job = λ m d. (written none 1, d);
  first_job = λ q d. (missing, d);
  find_jobs = λ q d. (ok [], d);
  update_jobs = λ conditions values d. (written none 0, d);
  create_jobs_in_batches = λ ms n d. (none, d);
  save_history = λ h d. (written none 1, d);
  find_histories = λ q d. (ok [], d);
  save_worker = λ w d. (written none 1, some w);
  find_workers = λ q d. (ok (active d), d);
  update_workers = λ conditions values d. (written none 1, Option.map (change conditions values) d);
  sql_db = λ d. none;
  close = λ d. (none, d);
}

row : Table → String → Option WorkerModel
row d id = with_id id (rows d)

id-swept : (at : ℤ) (m : WorkerModel) → (swept at m).id ≡ m.id
id-swept at m = ground arith

exact_at :
    (a b : Bool) (m : WorkerModel) (id : String)
    → is_active m ≡ a
    → m.id == id ≡ b
    → with_id id (if a then m ∷ [] else []) ≡ keep_if is_active (if b then some m else none)
exact_at true true m id a b =
    ap (λ x. if x then some m else none) b ∙ sym (ap (λ x. if x then some m else none) a)
exact_at true false m id a b = ap (λ x. if x then some m else none) b
exact_at false true m id a b = sym (ap (λ x. if x then some m else none) a)
exact_at false false m id a b = refl

worker_documented : DocumentedWorkers worker_db
unfolding worker_db row
worker_documented = record {
  micros = whole_micros;
  row = row;
  update_error = λ conditions values d. refl;
  sweep_row = sweeps;
  heartbeat_row = beats;
  active_rows = active;
  find_active = λ d. refl;
  active_known = known;
  active_exact = exact;
}
  where
    sweeps :
        (at : ℤ) (d : Table) (id : String)
        → row (Option.map (swept (whole_micros at)) d) id
          ≡ Option.map (swept (whole_micros at)) (row d id)
    sweeps at none id = refl
    sweeps at (some m) id = ground (arith, id-swept (whole_micros at) m)

    beats :
        (worker_id : String) (at : ℤ) (d : Table) (id : String)
        → row (Option.map (λ m. if worker_id == m.id then beaten (whole_micros at) m else m) d) id
          ≡ (if worker_id == id then Option.map (beaten (whole_micros at)) (row d id) else row d id)
    beats worker_id at none id = ground arith
    beats worker_id at (some m) id = ground (
      arith,
      string_key.eqb_iff worker_id m.id,
      string_key.eqb_iff m.id id,
      string_key.eqb_iff worker_id id,
    )

    known : (d : Table) → All (λ m. row d m.id ≡ some m) (active d)
    known none = tt
    known (some m) = elim (Bool-cases (is_active m)) [
      | inl e ↦ rw e (known_id, tt)
      | inr e ↦ rw e tt
    ]
      where
        known_id : row (some m) m.id ≡ some m
        known_id = rw (eqb_refl m.id)

    exact : (d : Table) (id : String) → with_id id (active d) ≡ keep_if is_active (row d id)
    exact none id = refl
    exact (some m) id = exact_at (is_active m) (m.id == id) m id refl refl

abbrev old_worker : WorkerModel
old_worker = record {
  id = "w";
  hostname = "host";
  supported_types = "[]";
  max_concurrent = pos 5;
  current_jobs = pos 0;
  status = "active";
  last_heartbeat = negsuc 9999999;
  registered_at = pos 0;
}

abbrev no_types : String → List JobType
no_types t = []

swept_stays_out_example :
    let s =
      (deactivate_stale_workers worker_db plain_codec (pos 1000000) (runtime, some old_worker)).1 in
    let (err, s') = update_worker_heartbeat worker_db plain_codec "w" s in
    (err ≡ none)
    × ((ms : List WorkerModel) × ((get_active_workers worker_db plain_codec s').0
          ≡ (map (entry worker_db plain_codec no_types) ms, none))
        × (with_id "w" ms ≡ none))
unfolding worker_documented row ◌+ℤ◌ wrap64 ◌-ℤ◌
swept_stays_out_example =
    swept_stays_out worker_db plain_codec worker_documented no_types (pos 1000000) "w" runtime
      (some old_worker) old_worker (λ id m e. refl) refl refl
