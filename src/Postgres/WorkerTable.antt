-- ===== src/Postgres/WorkerTable.antt =====
-- What the documentation of gorm and Postgres says of the statements that
-- internal/adapters/secondary/storage/postgres.go sends to the table of workers.
use mathlib.Core.Option
use mathlib.Core.Option.{some-injective}
use job_schedular_service.Base.{
  ◌≡◌, String, Bool, ◌&&◌, Option, none, some, List, [], ◌∷◌, ok, All, if◌then◌else◌, ltb_ℤ,
}
use job_schedular_service.Base.Map.{◌==◌, string_key}
use job_schedular_service.Domain.Retry.{Time}
use job_schedular_service.Postgres.{WorkerModel, Database, Value, text, instant}

abbrev pub is_active : WorkerModel → Bool
is_active m = m.status == "active"

abbrev pub keep_if : (WorkerModel → Bool) → Option WorkerModel → Option WorkerModel
keep_if p none = none
keep_if p (some m) = if p m then some m else none

-- The first row of a list with the id.
abbrev pub with_id : String → List WorkerModel → Option WorkerModel
with_id id [] = none
with_id id (m ∷ ms) = if m.id == id then some m else with_id id ms

-- The row of a worker after the sweep.
abbrev pub is_stale : Time → WorkerModel → Bool
is_stale cutoff m = ltb_ℤ m.last_heartbeat cutoff

abbrev pub swept : Time → WorkerModel → WorkerModel
swept cutoff m = if is_stale cutoff m && is_active m then record m { status = "inactive" } else m

-- The row of a worker after a heartbeat.
abbrev pub beaten : Time → WorkerModel → WorkerModel
beaten at m = record m { last_heartbeat = at }

pub record DocumentedWorkers {D : Type 0} (db : Database D) : Type 0 where
  -- the times that the database keeps, and the rows by primary key
  pub micros : Time → Time
  pub row : D → String → Option WorkerModel
  pub update_error :
      (conditions : List (String × List Value)) (values : List (String × Value)) (d : D)
      → (db.update_workers conditions values d).0.error ≡ none
  pub sweep_row :
      (cutoff : Time) (d : D) (id : String)
      → row
          (db.update_workers
            (("last_heartbeat < ? AND status = ?", instant cutoff ∷ text "active" ∷ []) ∷ [])
            (("status", text "inactive") ∷ [])
            d).1
          id
        ≡ Option.map (swept (micros cutoff)) (row d id)
  pub heartbeat_row :
      (worker_id : String) (at : Time) (d : D) (id : String)
      → row
          (db.update_workers
            (("id = ?", text worker_id ∷ []) ∷ [])
            (("last_heartbeat", instant at) ∷ [])
            d).1
          id
        ≡ (if worker_id == id then Option.map (beaten (micros at)) (row d id) else row d id)
  -- Find gives the rows for which the condition holds, in some order.
  pub active_rows : D → List WorkerModel
  pub find_active :
      (d : D)
      → db.find_workers
          (record {
            conditions = ("status = ?", text "active" ∷ []) ∷ [];
            order = none;
            limit = none;
            offset = none;
          })
          d
        ≡ (ok (active_rows d), d)
  pub active_known : (d : D) → All (λ m. row d m.id ≡ some m) (active_rows d)
  pub active_exact :
      (d : D) (id : String) → with_id id (active_rows d) ≡ keep_if is_active (row d id)
