-- ===== src/Redis/Range.antt =====
-- Which times the range of the ready jobs of internal/adapters/secondary/queue/redis.go takes.
use job_schedular_service.Base.{
  pos, negsuc, ◌≡◌, true, false, some, arith, Bool-cases, ◌≤ℤ◌, ◌<ℤ◌, ◌+ℤ◌, +ℤ_parts, ◌⊎◌, inl, inr,
}
use job_schedular_service.Base.Map.{string_key}
use job_schedular_service.Domain.Retry.{Time}
use job_schedular_service.Redis.{unix}
use job_schedular_service.Redis.Commands.{within}

unix-early :
    (at instant : Time)
    → within (pos 0) (unix instant) (some (unix at)) ≡ true
    → at <ℤ instant +ℤ pos 1000000000
unix-early (pos n) (pos m) h = ground (arith, +ℤ_parts (pos m) (pos 1000000000))
unix-early (pos n) (negsuc m) h = ground arith
unix-early (negsuc n) m h = ground arith

-- What the range makes of a time: before 1970, within the second that has begun, or later.
abbrev pub UnixRange : Time → Time → Type 0
UnixRange at instant =
    let taken = within (pos 0) (unix instant) (some (unix at)) in
    ((at <ℤ pos 0) × (taken ≡ false))
    ⊎ (((pos 0 ≤ℤ at) × (at <ℤ instant +ℤ pos 1000000000) × (taken ≡ true))
        ⊎ ((instant <ℤ at) × (taken ≡ false)))

from_1970 :
    (at instant : Time) → within (pos 0) (unix instant) (some (unix at)) ≡ true → pos 0 ≤ℤ at
from_1970 (pos n) instant h = ground arith
from_1970 (negsuc n) instant h = ground arith

not_due :
    (at instant : Time)
    → pos 0 ≤ℤ at
    → within (pos 0) (unix instant) (some (unix at)) ≡ false
    → instant <ℤ at
not_due (pos n) (pos m) h e = ground arith
not_due (pos n) (negsuc m) h e = ground arith
not_due (negsuc n) m h e = ground arith

ltb-cases : (at : Time) → (at <ℤ pos 0) ⊎ (pos 0 ≤ℤ at)
ltb-cases (pos n) = inr (ground arith)
ltb-cases (negsuc n) = inl (ground arith)

pub unix-range : (at instant : Time) → UnixRange at instant
unix-range at instant = elim (Bool-cases (within (pos 0) (unix instant) (some (unix at)))) [
  | inl e ↦ inr (inl (from_1970 at instant e, unix-early at instant e, e))
  | inr e ↦ elim (ltb-cases at) [
    | inl h ↦ inl (h, e)
    | inr h ↦ inr (inr (not_due at instant h e, e))
  ]
]
