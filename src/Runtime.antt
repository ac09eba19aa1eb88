-- ===== src/Runtime.antt =====
-- What a running process shares: the job structs behind pointers, the clock and the source of new
-- ids. `*domain.Job` is an address; the storage and the queue may hold the same one, so a write
-- through it is seen by both.
use job_schedular_service.Base.{
  ℕ, suc, ℤ, String, ◌≡◌, refl, false, arith, nat_eqb, nat_eqb_iff, if◌then◌else◌, str_append,
  saturate64, ◌-ℤ◌,
}
use job_schedular_service.Config.{Environment}
use job_schedular_service.Domain.Retry.{Time, Duration}
use job_schedular_service.Domain.Job.{Job, Uuid, Error}

-- An operation that changes a state and returns a value.
abbrev pub Action : Type 0 → Type 0 → Type 0
Action S A = S → A × S

abbrev pub pure : {S A : Type 0} → A → Action S A
pure a s = (a, s)

infixl 5 ◌>>=◌ ◌>>◌
abbrev pub ◌>>=◌ : {S A B : Type 0} → Action S A → (A → Action S B) → Action S B
◌>>=◌ m f s = let (a, s') = m s in f a s'

abbrev pub ◌>>◌ : {S A B : Type 0} → Action S A → Action S B → Action S B
m >> n = m >>= λ _. n

-- fmt.Errorf(prefix + "%w", err)
abbrev pub wrap_error : String → Error → Error
wrap_error prefix err = str_append prefix err

-- What the process, the standard library and github.com/google/uuid supply: the environment, the
-- text of a uuid, and the int64 that a too large float64 becomes.
pub record Platform : Type 0 where
  pub environment : Environment
  pub uuid_text : Uuid → String
  pub float_overflow : ℤ → Duration

abbrev pub JobRef : Type 0
JobRef = ℕ

pub record Runtime : Type 0 where
  pub platform : Platform
  pub open platform use *
  -- the readings of time.Now, in order, and how many were taken
  pub clock : ℕ → Time
  pub reads : ℕ
  -- the results of uuid.New, in order, and how many were taken
  pub ids : ℕ → Uuid
  pub minted : ℕ
  -- the job structs, and the next free address
  pub cells : JobRef → Job
  pub next : JobRef

-- time.Now()
unfoldable pub now : Action Runtime Time
now r = (r.clock r.reads, record r { reads = suc r.reads })

-- uuid.New()
unfoldable pub new_uuid : Action Runtime Uuid
new_uuid r = (r.ids r.minted, record r { minted = suc r.minted })

-- The structs after a write through `p`; kept shut in proofs, which use the two laws below.
unfoldable pub store : (JobRef → Job) → JobRef → Job → JobRef → Job
store cells p job q = if nat_eqb p q then job else cells q

pub store_self : (cells : JobRef → Job) (p : JobRef) (job : Job) → store cells p job p ≡ job
unfolding store
store_self cells p job = ground (arith, nat_eqb_iff p p)

pub store_other :
    (cells : JobRef → Job) (p q : JobRef) (job : Job)
    → nat_eqb p q ≡ false
    → store cells p job q ≡ cells q
unfolding store
store_other cells p q job h = rw h

-- *p = job
unfoldable pub write : JobRef → Job → Runtime → Runtime
write p job r = record r { cells = store r.cells p job }

-- &Job{...}
unfoldable pub allocate : Job → Action Runtime JobRef
unfolding write
allocate job r = (r.next, record (write r.next job r) { next = suc r.next })

pub cells-write :
    (p q : JobRef) (job : Job) (r : Runtime)
    → (write p job r).cells q ≡ (if nat_eqb p q then job else r.cells q)
unfolding write store
cells-write p q job r = refl

-- *p
unfoldable pub load : JobRef → Action Runtime Job
load p r = (r.cells p, r)

-- *p = f(*p)
unfoldable pub update : JobRef → (Job → Job) → Action Runtime (Unit {0})
unfolding write
update p f r = (tt, write p (f (r.cells p)) r)

-- time.Since(start)
unfoldable pub since : Time → Action Runtime Duration
unfolding now
since start = do instant ← now; pure (saturate64 (instant -ℤ start))
