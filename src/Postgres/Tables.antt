-- ===== src/Postgres/Tables.antt =====
-- What the documentation of gorm and Postgres says of the statements that
-- internal/adapters/secondary/storage/postgres.go sends to a database that it reaches.
use mathlib.Core.Option
use mathlib.Core.List.{Perm}
use job_schedular_service.Base.{
  ℤ, pos, negsuc, ◌≡◌, String, Bool, true, ◌&&◌, Option, none, some, List, [], ◌∷◌, ok,
  if◌then◌else◌, select, take, drop, All, ◌≤ℤ◌,
}
use job_schedular_service.Base.Map.{◌==◌, nat_key, int_key, string_key}
use job_schedular_service.Domain.Retry.{Time}
use job_schedular_service.Domain.Job.{Uuid}
use job_schedular_service.Postgres.{
  JobModel, Database, Query, Value, text, number, First, found, missing,
}
use job_schedular_service.Postgres.Jobs.{by_id}

-- What is read back: a jsonb column keeps a value and not its text, a timestamp is kept in
-- microseconds, and First and Find do not load the association.
abbrev pub read_back : (String → String) → (Time → Time) → JobModel → JobModel
read_back jsonb micros m = record m {
  payload = jsonb m.payload;
  metadata = jsonb m.metadata;
  retry_policy = jsonb m.retry_policy;
  created_at = micros m.created_at;
  updated_at = micros m.updated_at;
  scheduled_at = micros m.scheduled_at;
  processed_at = Option.map micros m.processed_at;
  completed_at = Option.map micros m.completed_at;
  failed_at = Option.map micros m.failed_at;
  history = [];
}

abbrev pub first_of : Option JobModel → First JobModel
first_of none = missing
first_of (some m) = found m

-- All the conditions hold of a row, by what each means.
abbrev pub all_hold :
    (String → List Value → JobModel → Bool) → List (String × List Value) → JobModel → Bool
all_hold holds [] m = true
all_hold holds ((condition, values) ∷ rest) m = holds condition values m && all_hold holds rest m

-- gorm leaves out a LIMIT below 0 and an OFFSET of 0 or less.
abbrev pub bounded {ℓ} : {A : Type ℓ} → Option ℤ → List A → List A
bounded none xs = xs
bounded (some (pos n)) xs = take n xs
bounded (some (negsuc n)) xs = xs

abbrev pub skipping {ℓ} : {A : Type ℓ} → Option ℤ → List A → List A
skipping none xs = xs
skipping (some (pos n)) xs = drop n xs
skipping (some (negsuc n)) xs = xs

-- The row of a primary key.
abbrev pub row_by_id : Uuid → List JobModel → Option JobModel
row_by_id id [] = none
row_by_id id (m ∷ ms) = if m.id == id then some m else row_by_id id ms

-- Each row was created no later than those before it.
abbrev pub Descending : List JobModel → Type 0
Descending [] = Unit {0}
Descending (m ∷ ms) = All (λ n. n.created_at ≤ℤ m.created_at) ms × Descending ms

pub record Documented {D : Type 0} (db : Database D) : Type 0 where
  -- the texts in Postgres's form, and the times it keeps
  pub jsonb : String → String
  pub micros : Time → Time
  -- The JSON columns hold JSON, every value fits its column, and the time of creation is set, which
  -- gorm fills in otherwise.
  pub accepts : JobModel → Bool
  -- the rows as they are read, and the one of a primary key
  pub rows : D → List JobModel
  pub row : D → Uuid → Option JobModel
  pub row_rows : (d : D) (id : Uuid) → row d id ≡ row_by_id id (rows d)
  -- the rows in the order that a query by descending time of creation takes: each query may have its
  -- own order of those that were created at the same time
  pub newest_first : Query → D → List JobModel
  pub newest_order : (q : Query) (d : D) → Descending (newest_first q d)
  pub newest_rows : (q : Query) (d : D) → Perm (newest_first q d) (rows d)
  -- the time at which gorm saves
  pub saved_at : D → Time
  -- Save updates the row of the primary key, or inserts one, and sets the time of its update.
  pub save_error : (m : JobModel) (d : D) → accepts m ≡ true → (db.save_job m d).0.error ≡ none
  pub save_affected :
      (m : JobModel) (d : D)
      → (db.save_job m d).0.error ≡ none
      → (db.save_job m d).0.rows_affected ≡ 1
  pub save_row :
      (m : JobModel) (d : D) (id : Uuid)
      → accepts m ≡ true
      → row (db.save_job m d).1 id ≡ (
          if m.id == id
          then some (read_back jsonb micros (record m { updated_at = saved_at d }))
          else row d id)
  -- First by the primary key, and Find
  pub first_row :
      (id : Uuid) (d : D)
      → db.first_job (record { conditions = by_id id; order = none; limit = none; offset = none }) d
        ≡ (first_of (row d id), d)
  pub holds : String → List Value → JobModel → Bool
  pub holds_status :
      (s : String) (m : JobModel) → holds "status = ?" (text s ∷ []) m ≡ m.status == s
  pub holds_type : (s : String) (m : JobModel) → holds "type = ?" (text s ∷ []) m ≡ m.job_type == s
  pub holds_priority :
      (n : ℤ) (m : JobModel) → holds "priority = ?" (number n ∷ []) m ≡ m.priority == n
  pub find_newest :
      (conditions : List (String × List Value)) (limit offset : Option ℤ) (d : D)
      → let q : Query = record {
        conditions = conditions;
        order = some "created_at DESC";
        limit = limit;
        offset = offset;
      } in
        db.find_jobs q d ≡ (
          ok (
              bounded limit
                (skipping offset (select (all_hold holds conditions) (newest_first q d)))),
          d,
        )
