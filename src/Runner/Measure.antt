-- ===== src/Runner/Measure.antt =====
-- How far the goroutines of internal/adapters/primary/worker/runner.go are from their end.
use job_schedular_service.Base.{
  ℕ, ◌+◌, ◌*◌, ◌≤◌, ◌≡◌, refl, ap, subst, Bool, true, false, List, [], ◌∷◌, ◌++◌, length, All,
  arith, ◌⊎◌, inl, inr,
}
use job_schedular_service.Runner.{
  Loop, polling, processing, sleeping, stopped, Progress, waiting, joining, returned, Pool,
}

-- How many steps a goroutine is from its return, once the context is done.
abbrev pub loop_left : Loop → ℕ
loop_left polling = 1
loop_left sleeping = 2
loop_left processing = 3
loop_left stopped = 0

abbrev loops_left : List Loop → ℕ
loops_left [] = 0
loops_left (loop ∷ loops) = loop_left loop + loops_left loops

abbrev progress_left : Progress → ℕ
progress_left waiting = 2
progress_left joining = 1
progress_left returned = 0

abbrev beating_left : Bool → ℕ
beating_left true = 1
beating_left false = 0

abbrev pub steps_left : {T Q : Type 0} → Pool T Q → ℕ
steps_left s = beating_left s.beating + loops_left s.loops + progress_left s.progress

pub loops_left-middle :
    (before after : List Loop) (loop : Loop)
    → loops_left (before ++ loop ∷ after) ≡ loop_left loop + loops_left (before ++ after)
loops_left-middle [] after loop = refl
loops_left-middle (x ∷ before) after loop = omega (arith, loops_left-middle before after loop)

-- How many goroutines are in a call of ProcessNextJob.
abbrev pub one_if_processing : Loop → ℕ
one_if_processing polling = 0
one_if_processing sleeping = 0
one_if_processing processing = 1
one_if_processing stopped = 0

abbrev pub in_flight : List Loop → ℕ
in_flight [] = 0
in_flight (loop ∷ loops) = one_if_processing loop + in_flight loops

pub in_flight-middle :
    (before after : List Loop) (loop : Loop)
    → in_flight (before ++ loop ∷ after) ≡ one_if_processing loop + in_flight (before ++ after)
in_flight-middle [] after loop = refl
in_flight-middle (x ∷ before) after loop = omega (arith, in_flight-middle before after loop)

pub loops_left-bound : (loops : List Loop) → loops_left loops ≤ 3 * length loops
loops_left-bound [] = omega arith
loops_left-bound (polling ∷ loops) = omega (arith, loops_left-bound loops)
loops_left-bound (sleeping ∷ loops) = omega (arith, loops_left-bound loops)
loops_left-bound (processing ∷ loops) = omega (arith, loops_left-bound loops)
loops_left-bound (stopped ∷ loops) = omega (arith, loops_left-bound loops)

-- A loop that has not returned, if there is one.
pub find_loop :
    (loops : List Loop)
    → All (λ loop. loop ≡ stopped) loops
      ⊎ ((before : List Loop) × (loop : Loop) × (after : List Loop) × (loops
            ≡ before ++ loop ∷ after)
          × ((loop ≡ polling) ⊎ ((loop ≡ sleeping) ⊎ (loop ≡ processing))))
find_loop [] = inl tt
find_loop (polling ∷ loops) = inr ([], polling, loops, refl, inl refl)
find_loop (sleeping ∷ loops) = inr ([], sleeping, loops, refl, inr (inl refl))
find_loop (processing ∷ loops) = inr ([], processing, loops, refl, inr (inr refl))
find_loop (stopped ∷ loops) = elim (find_loop loops) [
  | inl all ↦ inl (refl, all)
  | inr (before, loop, after, e, which) ↦
      inr (stopped ∷ before, loop, after, ap (◌∷◌ stopped) e, which)
]

pub no_loop_left :
    (before after loops : List Loop) (loop : Loop)
    → loops ≡ before ++ loop ∷ after
    → All (λ loop. loop ≡ stopped) loops
    → loop ≡ stopped
no_loop_left before after loops loop e all =
    middle before (subst (All (λ loop. loop ≡ stopped)) e all)
  where
    middle : (xs : List Loop) → All (λ loop. loop ≡ stopped) (xs ++ loop ∷ after) → loop ≡ stopped
    middle [] h = h.0
    middle (x ∷ xs) h = middle xs h.1

pub Progress-cases : (p : Progress) → (p ≡ waiting) ⊎ ((p ≡ joining) ⊎ (p ≡ returned))
Progress-cases waiting = inl refl
Progress-cases joining = inr (inl refl)
Progress-cases returned = inr (inr refl)

pub progress_left-bound : (p : Progress) → progress_left p ≤ 2
progress_left-bound waiting = omega arith
progress_left-bound joining = omega arith
progress_left-bound returned = omega arith

pub beating_left-bound : (b : Bool) → beating_left b ≤ 1
beating_left-bound true = omega arith
beating_left-bound false = omega arith
