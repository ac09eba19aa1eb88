-- ===== src/Examples/Redis.antt =====
-- A server in memory, and runs of internal/adapters/secondary/queue/redis.go on it.
mod Runs
use job_schedular_service.Base.{
  ℕ, ◌+◌, ℤ, pos, ◌≡◌, refl, String, Bool, true, false, ◌&&◌, Option, none, some, List, [], ◌∷◌,
  ◌++◌, map, length, Result, ok, arith, if◌then◌else◌, select, select-cons, Bool-cases,
  Option-cases, inl, inr, ap, ◌∙◌,
}
use mathlib.Core.Option.{get_or}
use job_schedular_service.Base.Map.{
  Map, get, put, delete, get-put, get-delete, contains, elem, ◌==◌, string_key,
}
use job_schedular_service.Domain.Priority.{priority_high}
use job_schedular_service.Domain.Job.{Job, status_pending}
use job_schedular_service.Runtime.{Action}
use job_schedular_service.Redis.{RedisClient, JobCodec, Popped, popped, nothing}
use job_schedular_service.Redis.Commands.{Documented, within, occurrences}
use job_schedular_service.Examples.{email_job, policy}

-- The lists, from tail to head, and the sorted sets.
pub record Server : Type 0 where
  pub lists : String → List String
  pub sets : String → Map String ℤ

abbrev pub with_list : String → List String → Server → Server
with_list key texts s = record s { lists = λ k. if key == k then texts else s.lists k }

abbrev pub with_set : String → Map String ℤ → Server → Server
with_set key set s = record s { sets = λ k. if key == k then set else s.sets k }

unfoldable pub pop : List String → Action Server Popped
pop [] s = (nothing, s)
pop (key ∷ keys) s = elim (s.lists key) [
  | [] ↦ pop keys s
  | v ∷ rest ↦ (popped (key ∷ v ∷ []), with_list key rest s)
]

-- The members of a sorted set, each of them once.
unfoldable pub members : Map String ℤ → List String
members [] = []
members ((k, x) ∷ set) = let rest = members set in if contains set k then rest else k ∷ rest

abbrev pub members_within : ℤ → ℤ → Map String ℤ → List String
members_within lo hi set = select (λ k. within lo hi (get set k)) (members set)

unfoldable pub server_client : RedisClient Server
unfolding pop get put delete members
server_client = record {
  lpush = λ key v s. (none, with_list key (s.lists key ++ v ∷ []) s);
  brpop = pop;
  zadd = λ key x m s. (none, with_set key (put (s.sets key) m x) s);
  zrange_by_score = λ key lo hi s. ((members_within lo hi (s.sets key), none), s);
  zrem = λ key m s. (none, with_set key (delete (s.sets key) m) s);
  llen = λ key s. ((length (s.lists key), none), s);
  zcard = λ key s. ((length (s.sets key), none), s);
}

occurrences-members :
    (set : Map String ℤ) (m : String)
    → occurrences m (members set) ≡ (if contains set m then 1 else 0)
unfolding members get
occurrences-members [] m = refl
occurrences-members ((k, x) ∷ set) m =
    ground (arith, occurrences-members set m, string_key.eqb_iff k m)

occurrences-select :
    (keep : String → Bool) (ks : List String) (m : String)
    → occurrences m (select keep ks) ≡ (if keep m then occurrences m ks else 0)
occurrences-select keep [] m = ground arith
occurrences-select keep (k ∷ ks) m =
    ground (arith, select-cons keep k ks, occurrences-select keep ks m, string_key.eqb_iff k m)

present-within :
    (lo hi : ℤ) (o : Option ℤ)
    → ◌≡◌ {A = ℕ}
        (if within lo hi o then if (elim o [ none ↦ false | some v ↦ true ]) then 1 else 0 else 0)
        (if within lo hi o then 1 else 0)
present-within lo hi none = refl
present-within lo hi (some v) = refl

pub occurrences-members_within :
    (lo hi : ℤ) (set : Map String ℤ) (m : String)
    → occurrences m (members_within lo hi set) ≡ (if within lo hi (get set m) then 1 else 0)
occurrences-members_within lo hi set m =
    occurrences-select (λ k. within lo hi (get set k)) (members set) m
    ∙ ap (λ n. if within lo hi (get set m) then n else 0) (occurrences-members set m)
    ∙ present-within lo hi (get set m)

pub lists-append :
    (key k v : String) (s : Server)
    → (with_list key (s.lists key ++ v ∷ []) s).lists k
      ≡ (if key == k then s.lists k ++ v ∷ [] else s.lists k)
lists-append key k v s = ground (arith, string_key.eqb_iff key k)

pub score-put :
    (key k m n : String) (x : ℤ) (s : Server)
    → get ((with_set key (put (s.sets key) m x) s).sets k) n
      ≡ (if key == k && m == n then some x else get (s.sets k) n)
score-put key k m n x s = ground (arith, string_key.eqb_iff key k, get-put (s.sets key) m n x)

pub score-delete :
    (key k m n : String) (s : Server)
    → get ((with_set key (delete (s.sets key) m) s).sets k) n
      ≡ (if key == k && m == n then none else get (s.sets k) n)
score-delete key k m n s = ground (arith, string_key.eqb_iff key k, get-delete (s.sets key) m n)

unfoldable pub server_documented : Documented server_client
unfolding server_client pop
server_documented = record {
  entries = λ s. s.lists;
  score = λ s key m. get (s.sets key) m;
  lpush_result = λ key v s. refl;
  lpush_entries = λ key v s k. lists-append key k v s;
  lpush_score = λ key v s k m. refl;
  brpop_result = λ key v keys rest s h. rw (h, pop);
  brpop_entries = λ key v keys rest s k h. rw (h, pop);
  brpop_skip = λ key next keys s h. rw (h, pop);
  brpop_nothing = λ key s h. rw (h, pop);
  brpop_waits = λ key s k h. rw (h, pop);
  zadd_result = λ key m x s. refl;
  zadd_score = λ key m x s k n. score-put key k m n x s;
  zrem_score = λ key m s k n. score-delete key k m n s;
  zrem_entries = λ key m s k. refl;
  zrange_error = λ key lo hi s. refl;
  zrange_state = λ key lo hi s. refl;
  zrange_members = λ key lo hi s m. occurrences-members_within lo hi (s.sets key) m;
}

-- A job is written as its payload, which is all in which these jobs differ.
abbrev pub sample : String → Job
sample text = record (email_job 101 priority_high status_pending (policy (pos 3) (pos 1))) {
  payload = text;
}

abbrev pub payload_codec : JobCodec
payload_codec = record { marshal = λ job. ok job.payload; unmarshal = λ text. ok (sample text) }
