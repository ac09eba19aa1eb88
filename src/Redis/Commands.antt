-- ===== src/Redis/Commands.antt =====
-- What the documentation of Redis says of the commands that internal/adapters/secondary/queue/redis.go
-- sends to a server that it reaches.
use job_schedular_service.Base.{
  ℕ, ◌+◌, ℤ, String, ◌≡◌, Bool, false, ◌&&◌, Option, none, some, List, [], ◌∷◌, ◌++◌, leb_ℤ,
  if◌then◌else◌,
}
use job_schedular_service.Base.Map.{◌==◌, string_key}
use job_schedular_service.Redis.{RedisClient, popped, nothing}

-- ZRANGEBYSCORE takes a member whose score is between the bounds, both included.
abbrev pub within : ℤ → ℤ → Option ℤ → Bool
within lo hi none = false
within lo hi (some score) = leb_ℤ lo score && leb_ℤ score hi

-- How often a text stands in a list.
abbrev pub occurrences : String → List String → ℕ
occurrences t [] = 0
occurrences t (u ∷ us) = (if u == t then 1 else 0) + occurrences t us

pub record Documented {S : Type 0} (client : RedisClient S) : Type 0 where
  -- the elements of a list, from its tail to its head, and the scores of a sorted set
  pub entries : S → String → List String
  pub score : S → String → String → Option ℤ
  -- LPUSH puts the element at the head.
  pub lpush_result : (key v : String) (s : S) → (client.lpush key v s).0 ≡ none
  pub lpush_entries :
      (key v : String) (s : S) (k : String)
      → entries (client.lpush key v s).1 k
        ≡ (if key == k then entries s k ++ v ∷ [] else entries s k)
  pub lpush_score :
      (key v : String) (s : S) (k m : String) → score (client.lpush key v s).1 k m ≡ score s k m
  -- BRPOP takes the tail of the first list that is not empty, and waits if there is none.
  pub brpop_result :
      (key v : String) (keys rest : List String) (s : S)
      → entries s key ≡ v ∷ rest
      → (client.brpop (key ∷ keys) s).0 ≡ popped (key ∷ v ∷ [])
  pub brpop_entries :
      (key v : String) (keys rest : List String) (s : S) (k : String)
      → entries s key ≡ v ∷ rest
      → entries (client.brpop (key ∷ keys) s).1 k ≡ (if key == k then rest else entries s k)
  pub brpop_skip :
      (key next : String) (keys : List String) (s : S)
      → entries s key ≡ []
      → client.brpop (key ∷ next ∷ keys) s ≡ client.brpop (next ∷ keys) s
  pub brpop_nothing :
      (key : String) (s : S) → entries s key ≡ [] → (client.brpop (key ∷ []) s).0 ≡ nothing
  pub brpop_waits :
      (key : String) (s : S) (k : String)
      → entries s key ≡ []
      → entries (client.brpop (key ∷ []) s).1 k ≡ entries s k
  -- ZADD sets the score of a member, and ZREM removes it.
  pub zadd_result : (key m : String) (x : ℤ) (s : S) → (client.zadd key x m s).0 ≡ none
  pub zadd_score :
      (key m : String) (x : ℤ) (s : S) (k n : String)
      → score (client.zadd key x m s).1 k n ≡ (if key == k && m == n then some x else score s k n)
  pub zrem_score :
      (key m : String) (s : S) (k n : String)
      → score (client.zrem key m s).1 k n ≡ (if key == k && m == n then none else score s k n)
  pub zrem_entries :
      (key m : String) (s : S) (k : String) → entries (client.zrem key m s).1 k ≡ entries s k
  -- ZRANGEBYSCORE reads. It returns each member of the range once.
  pub zrange_error :
      (key : String) (lo hi : ℤ) (s : S) → (client.zrange_by_score key lo hi s).0.1 ≡ none
  pub zrange_state : (key : String) (lo hi : ℤ) (s : S) → (client.zrange_by_score key lo hi s).1 ≡ s
  pub zrange_members :
      (key : String) (lo hi : ℤ) (s : S) (m : String)
      → occurrences m (client.zrange_by_score key lo hi s).0.0
        ≡ (if within lo hi (score s key m) then 1 else 0)
