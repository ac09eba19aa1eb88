-- ===== src/Postgres/Rows.antt =====
-- The rows that internal/adapters/secondary/storage/postgres.go lists, as the jobs that they stand for.
use job_schedular_service.Base.{
  ℕ, zero, suc, ◌-◌, ℤ, pos, negsuc, ◌≡◌, refl, ap, ◌≤ℤ◌, All, Bool-cases, inl, inr, String, Bool,
  none, some, List, [], ◌∷◌, map, Result, ok, failed, and_then, select, select-cons, take, drop,
  arith,
}
use job_schedular_service.Base.Map.{int_key, string_key}
use job_schedular_service.Domain.Retry.{RetryPolicy}
use job_schedular_service.Domain.Job.{Job, Metadata}
use job_schedular_service.Memory.Storage.Listing.{offset_of, limited}
use job_schedular_service.Postgres.{JobModel, FieldCodec}
use job_schedular_service.Postgres.Conversion.{
  wrapped, read_metadata, read_policy, domain_job, job_model_to_domain,
}
use job_schedular_service.Postgres.Jobs.{positive}
use job_schedular_service.Postgres.Tables.{Descending, bounded, skipping}

-- A row and the job that it stands for.
pub record Row (codec : FieldCodec) : Type 0 where
  pub model : JobModel
  pub job : Job
  pub decodes : job_model_to_domain codec model ≡ ok job

module _ {A B : Type 0} (f : A → B) where
  map-take : (n : ℕ) (xs : List A) → take n (map f xs) ≡ map f (take n xs)
  map-take zero xs = refl
  map-take (suc n) [] = refl
  map-take (suc n) (x ∷ xs) = ap (◌∷◌ (f x)) (map-take n xs)

  pub map-drop : (n : ℕ) (xs : List A) → drop n (map f xs) ≡ map f (drop n xs)
  map-drop zero xs = refl
  map-drop (suc n) [] = refl
  map-drop (suc n) (x ∷ xs) = map-drop n xs

  pub map-limited :
      (limit : ℤ) (xs : List A) → limited limit 0 (map f xs) ≡ map f (limited limit 0 xs)
  map-limited (pos zero) xs = refl
  map-limited (pos (suc n)) xs = map-take (suc n - 0) xs
  map-limited (negsuc n) xs = refl

  pub map-select :
      (keep : A → Bool) (keep' : B → Bool) (xs : List A)
      → ((a : A) → keep a ≡ keep' (f a))
      → map f (select keep xs) ≡ select keep' (map f xs)
  map-select keep keep' [] h = refl
  map-select keep keep' (x ∷ xs) h = ground (
    arith,
    select-cons keep x xs,
    select-cons keep' (f x) (map f xs),
    h x,
    map-select keep keep' xs h,
  )

positive-suc : (n : ℕ) → positive (pos (suc n)) ≡ some (pos (suc n))
positive-suc n = ground arith

positive-negsuc : (n : ℕ) → positive (negsuc n) ≡ none
positive-negsuc n = ground arith

pub bounded-positive :
    {A : Type 0} (limit : ℤ) (xs : List A) → bounded (positive limit) xs ≡ limited limit 0 xs
bounded-positive (pos zero) xs = refl
bounded-positive (pos (suc n)) xs =
    let e : suc n - 0 ≡ suc n = omega arith in rw (positive-suc n, e)
bounded-positive (negsuc n) xs = rw positive-negsuc

pub skipping-positive :
    {A : Type 0} (offset : ℤ) (xs : List A)
    → skipping (positive offset) xs ≡ drop (offset_of offset) xs
skipping-positive (pos zero) xs = refl
skipping-positive (pos (suc n)) xs = rw positive-suc
skipping-positive (negsuc n) xs = rw positive-negsuc

-- A decoded job has the columns that the query compares.
abbrev SameColumns : Job → JobModel → Type 0
SameColumns job model =
    (job.status ≡ model.status)
    × (job.job_type ≡ model.job_type)
    × (job.priority ≡ model.priority)
    × (job.created_at ≡ model.created_at)

decoded_parts :
    (m : Result Metadata) (p : Result RetryPolicy) (model : JobModel) (job : Job)
    (about about' : String)
    → and_then
        (wrapped about m)
        (λ metadata. and_then (wrapped about' p) (λ policy. ok (domain_job model metadata policy)))
      ≡ ok job
    → SameColumns job model
decoded_parts (failed e) p model job about about' h = cc
decoded_parts (ok m) (failed e) model job about about' h = cc
decoded_parts (ok m) (ok p) model job about about' h = ground arith

pub decoded_columns : (codec : FieldCodec) (row : Row codec) → SameColumns row.job row.model
unfolding job_model_to_domain
decoded_columns codec row =
    decoded_parts (read_metadata codec row.model.metadata)
      (read_policy codec row.model.retry_policy) row.model row.job "failed to unmarshal metadata: "
      "failed to unmarshal retry policy: " row.decodes

-- Each job was created no later than those before it.
abbrev pub AreNewestFirst : List Job → Type 0
AreNewestFirst [] = Unit {0}
AreNewestFirst (job ∷ jobs) = All (λ j. j.created_at ≤ℤ job.created_at) jobs × AreNewestFirst jobs

module _ (P : Job → Type 0) where
  All-select : (keep : Job → Bool) (jobs : List Job) → All P jobs → All P (select keep jobs)
  All-select keep [] h = tt
  All-select keep (job ∷ jobs) h = rw (select-cons keep job jobs) (elim (Bool-cases (keep job)) [
    | inl e ↦ rw e (h.0, All-select keep jobs h.1)
    | inr e ↦ rw e (All-select keep jobs h.1)
  ])

  All-take : (n : ℕ) (jobs : List Job) → All P jobs → All P (take n jobs)
  All-take zero jobs h = tt
  All-take (suc n) [] h = tt
  All-take (suc n) (job ∷ jobs) h = (h.0, All-take n jobs h.1)

pub select-AreNewestFirst :
    (keep : Job → Bool) (jobs : List Job) → AreNewestFirst jobs → AreNewestFirst (select keep jobs)
select-AreNewestFirst keep [] h = tt
select-AreNewestFirst keep (job ∷ jobs) h =
    rw (select-cons keep job jobs) (elim (Bool-cases (keep job)) [
      | inl e ↦ rw e (
        All-select (λ j. j.created_at ≤ℤ job.created_at) keep jobs h.0,
        select-AreNewestFirst keep jobs h.1,
      )
      | inr e ↦ rw e (select-AreNewestFirst keep jobs h.1)
    ])

pub drop-AreNewestFirst :
    (n : ℕ) (jobs : List Job) → AreNewestFirst jobs → AreNewestFirst (drop n jobs)
drop-AreNewestFirst zero jobs h = h
drop-AreNewestFirst (suc n) [] h = tt
drop-AreNewestFirst (suc n) (job ∷ jobs) h = drop-AreNewestFirst n jobs h.1

take-AreNewestFirst : (n : ℕ) (jobs : List Job) → AreNewestFirst jobs → AreNewestFirst (take n jobs)
take-AreNewestFirst zero jobs h = tt
take-AreNewestFirst (suc n) [] h = tt
take-AreNewestFirst (suc n) (job ∷ jobs) h =
    (All-take (λ j. j.created_at ≤ℤ job.created_at) n jobs h.0, take-AreNewestFirst n jobs h.1)

pub limited-AreNewestFirst :
    (limit : ℤ) (jobs : List Job) → AreNewestFirst jobs → AreNewestFirst (limited limit 0 jobs)
limited-AreNewestFirst (pos zero) jobs h = h
limited-AreNewestFirst (pos (suc n)) jobs h = take-AreNewestFirst (suc n - 0) jobs h
limited-AreNewestFirst (negsuc n) jobs h = h

module _ (codec : FieldCodec) where
  rows_below :
      (first : Row codec) (rows : List (Row codec))
      → All (λ m. m.created_at ≤ℤ first.model.created_at) (map (λ row. row.model) rows)
      → All (λ j. j.created_at ≤ℤ first.job.created_at) (map (λ row. row.job) rows)
  rows_below first [] h = tt
  rows_below first (row ∷ rows) h = (
    rw ((decoded_columns codec row).3, (decoded_columns codec first).3) h.0,
    rows_below first rows h.1,
  )

  pub rows-AreNewestFirst :
      (rows : List (Row codec))
      → Descending (map (λ row. row.model) rows)
      → AreNewestFirst (map (λ row. row.job) rows)
  rows-AreNewestFirst [] h = tt
  rows-AreNewestFirst (row ∷ rows) h = (rows_below row rows h.0, rows-AreNewestFirst rows h.1)
