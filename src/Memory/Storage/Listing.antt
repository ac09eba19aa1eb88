-- ===== src/Memory/Storage/Listing.antt =====
-- ListJobs of internal/adapters/secondary/storage/memory.go: filter, then offset, then limit.
use job_schedular_service.Base.{
  ℕ, zero, suc, ◌-◌, ℤ, pos, negsuc, ◌≡◌, refl, sym, ap, ◌∙◌, Bool, true, false, ◌&&◌, none, List,
  [], ◌∷◌, map, arith, ltb_ℤ, leb_ℤ, select, select-cons, take, drop, Bool-cases, inl, inr,
}
use job_schedular_service.Base.Map.{Map}
use job_schedular_service.Domain.Job.{Uuid}
use job_schedular_service.Ports.{JobFilter}
use job_schedular_service.Runtime.{JobRef, Runtime}
use job_schedular_service.Memory.Storage.{MemoryStorage, passes, list_from, list_jobs}

-- A negative offset skips nothing.
abbrev pub offset_of : ℤ → ℕ
offset_of (pos n) = n
offset_of (negsuc n) = 0

-- A limit of zero or less is no limit.
abbrev pub limited {ℓ} : {A : Type ℓ} → ℤ → ℕ → List A → List A
limited (pos zero) count xs = xs
limited (pos (suc n)) count xs = take (suc n - count) xs
limited (negsuc n) count xs = xs

-- The test by which ListJobs stops.
abbrev full : ℤ → ℕ → Bool
full limit count = ltb_ℤ (pos 0) limit && leb_ℤ limit (pos count)

module _ {ℓ} {A : Type ℓ} where
  limited-nil : (limit : ℤ) (count : ℕ) → limited {A = A} limit count [] ≡ []
  limited-nil (pos zero) count = refl
  limited-nil (negsuc n) count = refl
  limited-nil (pos (suc n)) count = go (suc n - count)
    where
      go : (k : ℕ) → take {A = A} k [] ≡ []
      go zero = refl
      go (suc k) = refl

  drop-nil : (k : ℕ) → drop {A = A} k [] ≡ []
  drop-nil zero = refl
  drop-nil (suc k) = refl

  limited-full :
      (limit : ℤ) (count : ℕ) (xs : List A) → full limit count ≡ true → limited limit count xs ≡ []
  limited-full (pos zero) count xs h = cc
  limited-full (negsuc n) count xs h = ground arith
  limited-full (pos (suc n)) count xs h = let e : suc n - count ≡ 0 = ground arith in rw e

  limited-cons :
      (limit : ℤ) (count : ℕ) (x : A) (xs : List A)
      → full limit count ≡ false
      → limited limit count (x ∷ xs) ≡ x ∷ limited limit (suc count) xs
  limited-cons (pos zero) count x xs h = refl
  limited-cons (negsuc n) count x xs h = refl
  limited-cons (pos (suc n)) count x xs h =
      let e : suc n - count ≡ suc (n - count) = ground arith in
      let e' : suc n - suc count ≡ n - count = omega arith in rw (e, e')

  drop_skip :
      (offset : ℤ) (skipped : ℕ) (x : A) (xs : List A)
      → ltb_ℤ (pos skipped) offset ≡ true
      → drop (offset_of offset - skipped) (x ∷ xs) ≡ drop (offset_of offset - suc skipped) xs
  drop_skip (negsuc n) skipped x xs h = ground arith
  drop_skip (pos n) skipped x xs h =
      let e : n - skipped ≡ suc (n - suc skipped) = ground arith in rw e

  drop_done :
      (offset : ℤ) (skipped : ℕ) (xs : List A)
      → ltb_ℤ (pos skipped) offset ≡ false
      → drop (offset_of offset - skipped) xs ≡ xs
  drop_done (negsuc n) skipped xs h = let e : 0 - skipped ≡ 0 = omega arith in rw e
  drop_done (pos n) skipped xs h = let e : n - skipped ≡ 0 = ground arith in rw e

module _ (r : Runtime) (filter : JobFilter) where
  abbrev pub matching : List JobRef → List JobRef
  matching = select (λ p. passes filter (r.cells p))

  list_from-page :
      (count skipped : ℕ) (ps : List JobRef)
      → list_from r filter count skipped ps
        ≡ limited filter.limit count (drop (offset_of filter.offset - skipped) (matching ps))
  unfolding list_from
  list_from-page count skipped [] =
      rw (drop-nil (offset_of filter.offset - skipped)) (sym (limited-nil filter.limit count))
  list_from-page count skipped (p ∷ ps) =
      rw (select-cons (λ q. passes filter (r.cells q)) p ps)
        (elim (Bool-cases (passes filter (r.cells p))) [
          | inl pass ↦
              rw (pass, list_from)
                (elim (Bool-cases (ltb_ℤ (pos skipped) filter.offset)) [
                  | inl skip ↦
                      rw (skip, list_from)
                        (list_from-page count (suc skipped) ps
                          ∙ ap (limited filter.limit count)
                              (sym (drop_skip filter.offset skipped p (matching ps) skip)))
                  | inr done ↦
                      rw (done, list_from, drop_done filter.offset skipped (p ∷ matching ps) done)
                        (elim (Bool-cases (full filter.limit count)) [
                          | inl stop ↦
                              rw (stop, list_from)
                                (sym (limited-full filter.limit count (p ∷ matching ps) stop))
                          | inr more ↦
                              rw (more, list_from)
                                (ap (◌∷◌ p) (
                                    list_from-page (suc count) skipped ps
                                    ∙ ap (limited filter.limit (suc count))
                                        (drop_done filter.offset skipped (matching ps) done))
                                  ∙ sym (limited-cons filter.limit count p (matching ps) more))
                        ])
                ])
          | inr fail ↦ rw (fail, list_from) (list_from-page count skipped ps)
        ])

-- ListJobs returns the jobs that pass the filter, in the order in which Go ranges over the map,
-- without the first `offset` of them, and of those left the first `limit`, or all if the limit is
-- not positive; it changes nothing and never fails.
pub list_jobs-page :
    (range_order : Map Uuid JobRef → Map Uuid JobRef) (filter : JobFilter) (r : Runtime)
    (m : MemoryStorage)
    → list_jobs range_order filter (r, m) ≡ (
      (
        limited filter.limit 0 (
            drop
              (offset_of filter.offset)
              (select (λ p. passes filter (r.cells p)) (map (λ e. e.1) (range_order m.jobs)))),
        none,
      ),
      (r, m),
    )
unfolding list_jobs
list_jobs-page range_order filter r m =
    let e : offset_of filter.offset - 0 ≡ offset_of filter.offset = omega arith in
    ap (λ (page : List JobRef). ((page, none), (r, m)))
      (list_from-page r filter 0 0 (map (λ e. e.1) (range_order m.jobs)) ∙ rw e)
