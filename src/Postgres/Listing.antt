-- ===== src/Postgres/Listing.antt =====
-- ListJobs of internal/adapters/secondary/storage/postgres.go: what its query finds, and the jobs that
-- it makes of the rows.
use mathlib.Core.List.{append-nil}
use job_schedular_service.Base.{
  ◌<◌, ◌≡◌, refl, sym, subst, ◌∙◌, String, ◌&&◌, Option, none, some, List, [], ◌∷◌, ◌++◌, map, ok,
  select, drop, arith, nat_eqb_iff,
}
use job_schedular_service.Base.Map.{Key, ◌==◌, int_key, string_key}
use job_schedular_service.Domain.Job.{Error}
use job_schedular_service.Ports.{JobFilter}
use job_schedular_service.Runtime.{JobRef, Runtime, allocate, store_self, store_other}
use job_schedular_service.Memory.Storage.{admits, passes}
use job_schedular_service.Memory.Storage.Listing.{offset_of, limited}
use job_schedular_service.Postgres.{JobModel, FieldCodec, Database, Value, text, number}
use job_schedular_service.Postgres.Jobs.{
  positive, where_equals, prepend, list_query, convert_models, find_jobs, list_jobs,
}
use job_schedular_service.Postgres.Tables.{Documented, Descending, all_hold}
use job_schedular_service.Postgres.Rows.{
  bounded-positive, skipping-positive, decoded_columns, AreNewestFirst, select-AreNewestFirst,
  drop-AreNewestFirst, limited-AreNewestFirst, map-drop, map-limited, map-select,
  rows-AreNewestFirst, Row,
}

module _ {D : Type 0} (db : Database D) (codec : FieldCodec) where
  -- What the loop over the rows does: a new job for each, and no other job changes.
  abbrev Converted :
      Runtime → D → List (Row codec) → (List JobRef × Option Error) × (Runtime × D) → Type 0
  Converted r d rows ((ps, err), (r', d')) =
      (err ≡ none)
      × (d' ≡ d)
      × (map r'.cells ps ≡ map (λ row. row.job) rows)
      × ((q : JobRef) → q < r.next → r'.cells q ≡ r.cells q)

  Converted-more :
      (r : Runtime) (d : D) (row : Row codec) (rows : List (Row codec))
      (c : (List JobRef × Option Error) × (Runtime × D))
      → Converted (allocate row.job r).1 d rows c
      → Converted r d (row ∷ rows) (prepend db codec r.next c.0, c.1)
  unfolding allocate
  Converted-more r d row rows ((ps, some e), (r', d')) (h, state, cells, others) = cc
  Converted-more r d row rows ((ps, none), (r', d')) (h, state, cells, others) = (
    refl,
    state,
    ground (arith, cells, others r.next, store_self r.cells r.next row.job),
    λ q lt.
        others q (omega arith)
        ∙ store_other r.cells r.next q row.job (ground (arith, nat_eqb_iff r.next q)),
  )

  convert_models-Converted :
      (rows : List (Row codec)) (r : Runtime) (d : D)
      → Converted r d rows (convert_models db codec (map (λ row. row.model) rows) (r, d))
  unfolding convert_models allocate
  convert_models-Converted [] r d = (refl, refl, refl, λ q h. refl)
  convert_models-Converted (row ∷ rows) r d =
      rw (row.decodes, convert_models)
        (Converted-more r d row rows
          (convert_models db codec (map (λ row. row.model) rows) ((allocate row.job r).1, d))
          (convert_models-Converted rows (allocate row.job r).1 d))

module _ {D : Type 0} (db : Database D) (codec : FieldCodec) (tables : Documented db) where
  where_equals-admits :
      {A : Type 0} ⦃key : Key A⦄ (condition : String) (value : A → Value) (wanted : Option A)
      (a : A) (m : JobModel) (rest : List (String × List Value))
      → ((w : A) → tables.holds condition (value w ∷ []) m ≡ (a == w))
      → all_hold tables.holds (where_equals condition value wanted ++ rest) m
        ≡ (admits wanted a && all_hold tables.holds rest m)
  where_equals-admits condition value none a m rest h = refl
  where_equals-admits condition value (some w) a m rest h = rw (h w)

  list_query-passes :
      (filter : JobFilter) (row : Row codec)
      → passes filter row.job ≡ all_hold tables.holds (list_query filter).conditions row.model
  unfolding list_query passes
  list_query-passes filter row =
      let m = row.model in
      let same = decoded_columns codec row in
      ground (
        arith,
        same,
        where_equals-admits "status = ?" text filter.status m.status m
            (where_equals "type = ?" text filter.job_type
              ++ where_equals "priority = ?" number filter.priority)
            (λ w. tables.holds_status w m),
        where_equals-admits "type = ?" text filter.job_type m.job_type m
            (where_equals "priority = ?" number filter.priority) (λ w. tables.holds_type w m),
        where_equals-admits "priority = ?" number filter.priority m.priority m []
            (λ w. tables.holds_priority w m),
        append-nil (where_equals "priority = ?" number filter.priority),
      )

  -- The rows that ListJobs finds, and the jobs in them.
  abbrev page : {A : Type 0} → JobFilter → List A → List A
  page filter xs = limited filter.limit 0 (drop (offset_of filter.offset) xs)

  found_rows : JobFilter → List (Row codec) → List (Row codec)
  found_rows filter rows = page filter (select (λ row. passes filter row.job) rows)

  find-found_rows :
      (filter : JobFilter) (rows : List (Row codec)) (d : D)
      → tables.newest_first (list_query filter) d ≡ map (λ row. row.model) rows
      → db.find_jobs (list_query filter) d
        ≡ (ok (map (λ row. row.model) (found_rows filter rows)), d)
  unfolding list_query found_rows
  find-found_rows filter rows d h =
      tables.find_newest (list_query filter).conditions (positive filter.limit)
        (positive filter.offset) d
      ∙ rw (h, bounded-positive, skipping-positive)
          (rw
            (← map-select (λ (row : Row codec). row.model) (λ row. passes filter row.job)
              (all_hold tables.holds (list_query filter).conditions) rows
              (list_query-passes filter))
            (rw (map-drop, map-limited)))

  found_rows-page :
      (filter : JobFilter) (rows : List (Row codec))
      → map (λ row. row.job) (found_rows filter rows)
        ≡ page filter (select (passes filter) (map (λ row. row.job) rows))
  unfolding found_rows
  found_rows-page filter rows =
      rw
        (← map-select (λ (row : Row codec). row.job) (λ row. passes filter row.job) (passes filter)
          rows (λ row. refl))
        (rw (map-drop, map-limited))

  -- With a database that does what is documented, whose rows stand for jobs: ListJobs returns no
  -- error, changes no row, and returns pointers to copies of the same page that the memory storage
  -- would give of these jobs, in the order that the database takes for this query: those that pass
  -- the filter, without the first `offset`, and at most `limit` of them if the limit is positive;
  -- none of the copies was created later than one before it.
  pub list_jobs-newest :
      (filter : JobFilter) (rows : List (Row codec)) (r : Runtime) (d : D)
      → tables.newest_first (list_query filter) d ≡ map (λ row. row.model) rows
      → let ((ps, err), (r', d')) = list_jobs db codec filter (r, d) in
        (err ≡ none)
        × (d' ≡ d)
        × (map r'.cells ps
            ≡ limited filter.limit 0 (
                drop
                  (offset_of filter.offset)
                  (select (passes filter) (map (λ row. row.job) rows))))
        × AreNewestFirst (map r'.cells ps)
  unfolding list_jobs find_jobs
  list_jobs-newest filter rows r d h =
      let done = convert_models-Converted db codec (found_rows filter rows) r d in
      let jobs = map (λ (row : Row codec). row.job) rows in
      let listed = done.2 ∙ found_rows-page filter rows in
      let sorted : AreNewestFirst jobs =
        rows-AreNewestFirst codec rows
          (subst Descending h (tables.newest_order (list_query filter) d)) in
      rw (find-found_rows filter rows d h) (
        done.0,
        done.1,
        listed,
        subst AreNewestFirst (sym listed) (
            limited-AreNewestFirst filter.limit
              (drop (offset_of filter.offset) (select (passes filter) jobs))
              (drop-AreNewestFirst (offset_of filter.offset) (select (passes filter) jobs)
                (select-AreNewestFirst (passes filter) jobs sorted))),
      )
