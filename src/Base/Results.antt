-- ===== src/Base/Results.antt =====
-- What a call returns that may fail: Go's `(T, error)` where only one of the two is used.
use Prim.Native.String.{String}

-- `failed` holds the error's message.
pub data Result (A : Type 0) : Type 0 where
  ok : A → Result A
  failed : String → Result A

-- `if err != nil { return …, err }` after a call
abbrev pub and_then : {A B : Type 0} → Result A → (A → Result B) → Result B
and_then (ok a) f = f a
and_then (failed err) f = failed err
