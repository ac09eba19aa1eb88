-- ===== src/Examples/Postgres.antt =====
-- A table of jobs in memory, and runs of internal/adapters/secondary/storage/postgres.go on it.
mod Runs
mod Workers
use mathlib.Core.List.{Perm}
use mathlib.Core.List.Perm
use Prim.Native.Nat.{◌/◌}
use job_schedular_service.Base.{
  ℕ, ◌+◌, ◌*◌, ℤ, pos, negsuc, ◌≡◌, refl, ◌∙◌, sym, ap, String, Bool, true, false, ◌&&◌, ◌||◌,
  Option, none, some, List, [], ◌∷◌, map, Result, ok, failed, All, All-mono, arith, if◌then◌else◌,
  select, select-cons, leb_ℤ, ◌≤ℤ◌, Bool-cases, inl, inr,
}
use job_schedular_service.Base.Map.{◌==◌, elem, nat_key, int_key, string_key}
use job_schedular_service.Domain.Retry.{Time}
use job_schedular_service.Domain.Job.{Uuid}
use job_schedular_service.Postgres.{
  JobModel, Database, FieldCodec, Query, Value, uuid, text, number, Written, First,
}
use job_schedular_service.Postgres.Tables.{
  Documented, Descending, row_by_id, read_back, first_of, all_hold, bounded, skipping,
}
use job_schedular_service.Examples.{policy}

abbrev pub Table : Type 0
Table = List JobModel

unfoldable pub row_of : Table → Uuid → Option JobModel
row_of [] id = none
row_of (m ∷ ms) id = if m.id == id then some m else row_of ms id

unfoldable pub remove : Uuid → Table → Table
remove id [] = []
remove id (m ∷ ms) = let rest = remove id ms in if m.id == id then rest else m ∷ rest

-- Whole microseconds, rounded down.
abbrev pub whole_micros : Time → Time
whole_micros (pos n) = pos (n / 1000 * 1000)
whole_micros (negsuc n) = negsuc (n / 1000 * 1000 + 999)

abbrev pub same_text : String → String
same_text t = t

unfoldable pub insert : JobModel → Table → Table
insert m [] = m ∷ []
insert m (n ∷ ms) =
    let rest = insert m ms in if leb_ℤ n.created_at m.created_at then m ∷ n ∷ ms else n ∷ rest

unfoldable pub sort : Table → Table
unfolding insert
sort [] = []
sort (m ∷ ms) = insert m (sort ms)

abbrev pub means : String → List Value → JobModel → Bool
means condition (text s ∷ []) m =
    if condition == "status = ?" then m.status == s else condition == "type = ?" && m.job_type == s
means condition (number n ∷ []) m = condition == "priority = ?" && m.priority == n
means condition (uuid id ∷ []) m = condition == "id = ?" && m.id == id
means condition values m = false

abbrev pub head_row : List JobModel → Option JobModel
head_row [] = none
head_row (m ∷ ms) = some m

abbrev pub written : Option String → ℕ → Written
written err n = record { error = err; rows_affected = n }

-- gorm always saves at the same time.
abbrev pub noon : Time
noon = pos 43200000

-- The other tables are empty, and nothing is updated in place.
unfoldable pub table_db : Database Table
unfolding row_of remove sort
table_db = record {
  auto_migrate = λ d. (none, d);
  save_job = λ m d. (
    written none 1,
    read_back same_text whole_micros (record m { updated_at = noon }) ∷ remove m.id d,
  );
  first_job = λ q d. (first_of (head_row (select (all_hold means q.conditions) d)), d);
  find_jobs = λ q d.
      (ok (bounded q.limit (skipping q.offset (select (all_hold means q.conditions) (sort d)))), d);
  update_jobs = λ conditions values d. (written none 0, d);
  create_jobs_in_batches = λ ms n d. (none, d);
  save_history = λ h d. (written none 1, d);
  find_histories = λ q d. (ok [], d);
  save_worker = λ w d. (written none 1, d);
  find_workers = λ q d. (ok [], d);
  update_workers = λ conditions values d. (written none 0, d);
  sql_db = λ d. none;
  close = λ d. (none, d);
}

row_of-remove :
    (id j : Uuid) (ms : Table) → row_of (remove id ms) j ≡ (if id == j then none else row_of ms j)
unfolding row_of remove
row_of-remove id j [] = ground arith
row_of-remove id j (m ∷ ms) = ground (
  arith,
  row_of-remove id j ms,
  nat_key.eqb_iff m.id id,
  nat_key.eqb_iff m.id j,
  nat_key.eqb_iff id j,
)

pub row_of-save :
    (m : JobModel) (ms : Table) (id : Uuid)
    → let saved = read_back same_text whole_micros (record m { updated_at = noon }) in
      row_of (saved ∷ remove m.id ms) id ≡ (if m.id == id then some saved else row_of ms id)
unfolding row_of
row_of-save m ms id = ground (arith, row_of-remove m.id id ms)

pub head_row-select :
    (id : Uuid) (ms : Table)
    → head_row (select (all_hold means (("id = ?", uuid id ∷ []) ∷ [])) ms) ≡ row_of ms id
unfolding row_of
head_row-select id [] = refl
head_row-select id (m ∷ ms) = ground (
  arith,
  select-cons (all_hold means (("id = ?", uuid id ∷ []) ∷ [])) m ms,
  head_row-select id ms,
)

All-insert :
    (P : JobModel → Type 0) (m : JobModel) (ms : Table) → P m → All P ms → All P (insert m ms)
unfolding insert
All-insert P m [] p h = (p, tt)
All-insert P m (n ∷ ms) p h = elim (Bool-cases (leb_ℤ n.created_at m.created_at)) [
  | inl e ↦ rw e (p, h)
  | inr e ↦ rw e (h.0, All-insert P m ms p h.1)
]

≤ℤ_trans : (a b c : ℤ) → a ≤ℤ b → b ≤ℤ c → a ≤ℤ c
≤ℤ_trans a b c h k = omega arith

insert-Descending : (m : JobModel) (ms : Table) → Descending ms → Descending (insert m ms)
unfolding insert
insert-Descending m [] h = (tt, tt)
insert-Descending m (n ∷ ms) h = elim (Bool-cases (leb_ℤ n.created_at m.created_at)) [
  | inl e ↦
      let le : n.created_at ≤ℤ m.created_at = ground arith in
      rw e (
        (
          le,
          All-mono (λ (k : JobModel). k.created_at ≤ℤ n.created_at)
              (λ k. k.created_at ≤ℤ m.created_at) ms
              (λ k p. ≤ℤ_trans k.created_at n.created_at m.created_at p le) h.0,
        ),
        h,
      )
  | inr e ↦ rw e (
    All-insert (λ k. k.created_at ≤ℤ n.created_at) m ms (ground arith) h.0,
    insert-Descending m ms h.1,
  )
]

pub sort-Descending : (ms : Table) → Descending (sort ms)
unfolding sort
sort-Descending [] = tt
sort-Descending (m ∷ ms) = insert-Descending m (sort ms) (sort-Descending ms)

insert-perm : (m : JobModel) (ms : Table) → Perm (insert m ms) (m ∷ ms)
unfolding insert
insert-perm m [] = Perm.refl (m ∷ [])
insert-perm m (n ∷ ms) = elim (Bool-cases (leb_ℤ n.created_at m.created_at)) [
  | inl e ↦ rw e (Perm.refl (m ∷ n ∷ ms))
  | inr e ↦ rw e (Perm.trans (Perm.cons n (insert-perm m ms)) (Perm.swap m n ms))
]

pub sort-perm : (ms : Table) → Perm (sort ms) ms
unfolding sort
sort-perm [] = Perm.refl []
sort-perm (m ∷ ms) = Perm.trans (insert-perm m (sort ms)) (Perm.cons m (sort-perm ms))

pub row_of-by_id : (ms : Table) (id : Uuid) → row_of ms id ≡ row_by_id id ms
unfolding row_of
row_of-by_id [] id = refl
row_of-by_id (m ∷ ms) id = rw (row_of-by_id ms id)

unfoldable pub table_documented : Documented table_db
unfolding table_db
table_documented = record {
  jsonb = same_text;
  micros = whole_micros;
  accepts = λ m. true;
  row = row_of;
  rows = λ d. d;
  row_rows = row_of-by_id;
  newest_first = λ q. sort;
  newest_order = λ q. sort-Descending;
  newest_rows = λ q. sort-perm;
  saved_at = λ d. noon;
  save_error = λ m d h. refl;
  save_affected = λ m d h. refl;
  save_row = λ m d id h. row_of-save m d id;
  first_row = λ id d. ap (λ (o : Option JobModel). (first_of o, d)) (head_row-select id d);
  holds = means;
  holds_status = λ s m. refl;
  holds_type = λ s m. refl;
  holds_priority = λ n m. refl;
  find_newest = λ conditions limit offset d. refl;
}

-- Jobs without metadata and with one retry policy.
abbrev pub plain_codec : FieldCodec
plain_codec = record {
  marshal_metadata = λ metadata. ok "null";
  unmarshal_metadata = λ t. ok none;
  marshal_policy = λ p. ok "policy";
  unmarshal_policy = λ t. ok (policy (pos 3) (pos 1));
  marshal_types = λ types. ok "[]";
  unmarshal_types = λ t. ok [];
}
