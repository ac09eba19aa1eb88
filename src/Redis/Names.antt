-- ===== src/Redis/Names.antt =====
-- The names of the lanes of internal/adapters/secondary/queue/redis.go.
use job_schedular_service.Base.{ℤ, pos, String, ◌≡◌, refl, int_eqb, Bool-cases, ◌⊎◌, inl, inr}
use job_schedular_service.Base.Map.{◌==◌, string_key}
use job_schedular_service.Domain.Priority.{
  Priority, priority_low, priority_medium, priority_high, priority_critical, to_int, to_string,
}
use job_schedular_service.Redis.{get_queue_name}

-- A name and the number that ToInt gives.
abbrev Named : Priority → ℤ → String → Type 0
Named p n name = (to_int p ≡ n) × (get_queue_name p ≡ name)

named :
    (p : Priority)
    → Named p (pos 1) "jobs_low"
      ⊎ (Named p (pos 2) "jobs_medium"
          ⊎ (Named p (pos 3) "jobs_high" ⊎ Named p (pos 4) "jobs_critical"))
unfolding to_int get_queue_name to_string
named p = elim (Bool-cases (int_eqb p priority_low)) [
  | inl a ↦ inl (rw a, rw a)
  | inr a ↦ elim (Bool-cases (int_eqb p priority_medium)) [
    | inl b ↦ inr (inl (rw (a, b), rw (a, b)))
    | inr b ↦ elim (Bool-cases (int_eqb p priority_high)) [
      | inl c ↦ inr (inr (inl (rw (a, b, c), rw (a, b, c))))
      | inr c ↦ elim (Bool-cases (int_eqb p priority_critical)) [
        | inl d ↦ inr (inr (inr (rw (a, b, c, d), rw (a, b, c, d))))
        | inr d ↦ inr (inl (rw (a, b, c, d), rw (a, b, c, d)))
      ]
    ]
  ]
]

-- One priority is settled.
against :
    (p q : Priority) (n : ℤ) (name : String)
    → Named p n name
    → (name == "jobs_low") ≡ int_eqb n (pos 1)
    → (name == "jobs_medium") ≡ int_eqb n (pos 2)
    → (name == "jobs_high") ≡ int_eqb n (pos 3)
    → (name == "jobs_critical") ≡ int_eqb n (pos 4)
    → (get_queue_name p == get_queue_name q) ≡ int_eqb (to_int p) (to_int q)
against p q n name h low medium high critical = elim (named q) [
  | inl k ↦ rw (h.0, h.1, k.0, k.1) low
  | inr (inl k) ↦ rw (h.0, h.1, k.0, k.1) medium
  | inr (inr (inl k)) ↦ rw (h.0, h.1, k.0, k.1) high
  | inr (inr (inr k)) ↦ rw (h.0, h.1, k.0, k.1) critical
]

-- Two priorities have the same lane in the Redis queue exactly if ToInt gives the same number for
-- both.
pub get_queue_name-eq-to_int :
    (p q : Priority) → (get_queue_name p == get_queue_name q) ≡ int_eqb (to_int p) (to_int q)
get_queue_name-eq-to_int p q = elim (named p) [
  | inl h ↦ against p q (pos 1) "jobs_low" h refl refl refl refl
  | inr (inl h) ↦ against p q (pos 2) "jobs_medium" h refl refl refl refl
  | inr (inr (inl h)) ↦ against p q (pos 3) "jobs_high" h refl refl refl refl
  | inr (inr (inr h)) ↦ against p q (pos 4) "jobs_critical" h refl refl refl refl
]
