-- ===== src/Redis.antt =====
-- internal/adapters/secondary/queue/redis.go, over the commands of the Redis client and the JSON text
-- of a job as parameters. A score is a whole number of seconds, which a float64 holds exactly below
-- 2 ^ 53, and the bounds of a range are numbers, which the source prints.
pub mod Commands
pub mod Lanes
pub mod Range
pub mod Delayed
pub mod Timing
pub mod Overlap
pub mod Names
use Prim.Native.Nat.{◌/◌}
use job_schedular_service.Base.{
  ℕ, ℤ, pos, negsuc, String, str_append, Bool, Option, none, some, List, [], ◌∷◌, map, Result, ok,
  failed,
}
use job_schedular_service.Base.Map.{Map, put, int_key}
use job_schedular_service.Domain.Priority.{
  Priority, priority_low, priority_medium, priority_high, priority_critical, to_string,
}
use job_schedular_service.Domain.Retry.{Time}
use job_schedular_service.Domain.Job.{Job, Error}
use job_schedular_service.Ports.{QueueStats, QueuePort, Port}
use job_schedular_service.Runtime.{Action, pure, JobRef, Runtime, now, allocate, wrap_error}

-- The result of BRPOP: the key and the element, redis.Nil, or another error.
pub data Popped : Type 0 where
  popped : List String → Popped
  nothing : Popped
  broken : Error → Popped

-- The commands of github.com/go-redis/redis that the queue sends.
pub record RedisClient (S : Type 0) : Type 0 where
  pub lpush : String → String → Action S (Option Error)
  pub brpop : List String → Action S Popped
  pub zadd : String → ℤ → String → Action S (Option Error)
  pub zrange_by_score : String → ℤ → ℤ → Action S (List String × Option Error)
  pub zrem : String → String → Action S (Option Error)
  pub llen : String → Action S (ℕ × Option Error)
  pub zcard : String → Action S (ℕ × Option Error)

-- json.Marshal and json.Unmarshal of a job
pub record JobCodec : Type 0 where
  pub marshal : Job → Result String
  pub unmarshal : String → Result Job

-- redis.ParseURL, redis.NewClient and client.Ping
pub record RedisDriver (Options Client : Type 0) : Type 0 where
  pub parse_url : String → Result Options
  pub new_client : Options → Client
  pub ping : Client → Option Error

module _ {Options Client : Type 0} (driver : RedisDriver Options Client) where
  -- InitRedis after the call of Ping, by its error
  abbrev pinged : Client → Option Error → Result Client
  pinged client (some err) = failed (wrap_error "failed to ping Redis: " err)
  pinged client none = ok client

  abbrev parsed : Result Options → Result Client
  parsed (failed err) = failed (wrap_error "failed to parse Redis URL: " err)
  parsed (ok options) = let client = driver.new_client options in pinged client (driver.ping client)

  unfoldable pub init_redis : String → Result Client
  init_redis redis_url = parsed (driver.parse_url redis_url)

  -- NewRedisQueue: the client of the queue, nil after an error, which is printed
  unfoldable pub new_redis_queue : String → Option Client
  unfolding init_redis
  new_redis_queue redis_url = elim (init_redis redis_url) [
    | ok client ↦ some client
    | failed err ↦ none
  ]

-- getQueueName
unfoldable pub get_queue_name : Priority → String
unfolding to_string
get_queue_name priority = str_append "jobs_" (to_string priority)

abbrev pub delayed_key : String
delayed_key = "delayed_jobs"

abbrev pub dead_letter_key : String
dead_letter_key = "dead_letter_queue"

-- t.Unix(): the whole seconds, rounded down
abbrev pub unix : Time → ℤ
unix (pos n) = pos (n / 1000000000)
unix (negsuc n) = negsuc (n / 1000000000)

module _ {S : Type 0} (client : RedisClient S) (codec : JobCodec) where
  -- what follows the marshalling of a job, by its result
  abbrev pub with_text :
      (String → Action S (Option Error)) → Result String → Action S (Option Error)
  with_text send (failed err) = pure (some (wrap_error "failed to marshal job: " err))
  with_text send (ok text) = send text

  -- Enqueue of the job that a pointer points to
  unfoldable pub push_job : Job → Action S (Option Error)
  push_job job = with_text (client.lpush (get_queue_name job.priority)) (codec.marshal job)

  unfoldable pub enqueue : JobRef → Port S (Option Error)
  enqueue p (r, s) = let (err, s') = push_job (r.cells p) s in (err, (r, s'))

  -- Dequeue after the call of Unmarshal
  abbrev pub after_unmarshal : Result Job → Port S (Option JobRef × Option Error)
  after_unmarshal (failed err) s = ((none, some (wrap_error "failed to unmarshal job: " err)), s)
  after_unmarshal (ok job) (r, s) = let (p, r') = allocate job r in ((some p, none), (r', s))

  -- Dequeue after the call of BRPop
  unfoldable pub after_brpop : Popped → Port S (Option JobRef × Option Error)
  after_brpop nothing = pure (none, some "no jobs available")
  after_brpop (broken err) = pure (none, some err)
  after_brpop (popped []) = pure (none, some "invalid redis response")
  after_brpop (popped (key ∷ [])) = pure (none, some "invalid redis response")
  after_brpop (popped (key ∷ text ∷ rest)) = after_unmarshal (codec.unmarshal text)

  unfoldable pub dequeue : List Priority → Port S (Option JobRef × Option Error)
  unfolding after_brpop
  dequeue priorities (r, s) =
      let (result, s') = client.brpop (map get_queue_name priorities) s in
      after_brpop result (r, s')

  unfoldable pub enqueue_delayed : JobRef → Time → Port S (Option Error)
  enqueue_delayed p delay_until (r, s) =
      let (err, s') =
        with_text (client.zadd delayed_key (unix delay_until)) (codec.marshal (r.cells p)) s in
      (err, (r, s'))

  unfoldable pub move_to_dead_letter : JobRef → Port S (Option Error)
  move_to_dead_letter p (r, s) =
      let (err, s') = with_text (client.lpush dead_letter_key) (codec.marshal (r.cells p)) s in
      (err, (r, s'))

  -- the body of the loop of ProcessDelayedJobs, from its end to its beginning
  abbrev pub after_push : String → Option Error → S → S
  after_push text (some err) s = s
  after_push text none s = (client.zrem delayed_key text s).1

  unfoldable pub promote_decoded : String → Result Job → S → S
  promote_decoded text (failed err) s = s
  promote_decoded text (ok job) s = let (err, s') = push_job job s in after_push text err s'

  unfoldable pub promote : String → S → S
  unfolding promote_decoded
  promote text s = promote_decoded text (codec.unmarshal text) s

  -- the loop
  unfoldable pub promote_all : List String → S → S
  promote_all [] s = s
  promote_all (text ∷ texts) s = promote_all texts (promote text s)

  -- the range of the members that are ready
  unfoldable pub fetch_ready : Time → Action S (List String × Option Error)
  fetch_ready instant = client.zrange_by_score delayed_key (pos 0) (unix instant)

  unfoldable pub after_fetch : List String → Option Error → Action S (Option Error)
  after_fetch texts (some err) s = (some err, s)
  after_fetch texts none s = (none, promote_all texts s)

  unfoldable pub process_delayed_jobs : Port S (Option Error)
  unfolding fetch_ready after_fetch
  process_delayed_jobs (r, s) =
      let (instant, r') = now r in
      let ((texts, err), s') = fetch_ready instant s in
      let (err', s'') = after_fetch texts err s' in (err', (r', s''))

  -- the end of GetQueueStats, after the call of LLen for the dead letters
  abbrev dead_counted : QueueStats → ℕ × Option Error → QueueStats × Option Error
  dead_counted stats (n, some err) = (stats, some err)
  dead_counted stats (n, none) = (record stats { dead_letter_jobs = n }, none)

  abbrev delayed_counted : QueueStats → ℕ × Option Error → Action S (QueueStats × Option Error)
  delayed_counted stats (n, some err) s = ((stats, some err), s)
  delayed_counted stats (n, none) s =
      let (count, s') = client.llen dead_letter_key s in
      (dead_counted (record stats { delayed_jobs = n }) count, s')

  -- the loop of GetQueueStats over the priorities, and what follows it
  unfoldable pub count_lanes : List Priority → QueueStats → Action S (QueueStats × Option Error)
  count_lanes [] stats s =
      let (count, s') = client.zcard delayed_key s in delayed_counted stats count s'
  count_lanes (p ∷ ps) stats s =
      let ((n, err), s') = client.llen (get_queue_name p) s in
      elim err [
        | some e ↦ ((stats, some e), s')
        | none ↦ count_lanes ps (record stats { active_jobs = put stats.active_jobs p n }) s'
      ]

  unfoldable pub get_queue_stats : Port S (QueueStats × Option Error)
  unfolding count_lanes
  get_queue_stats (r, s) =
      let (result, s') =
        count_lanes (priority_low ∷ priority_medium ∷ priority_high ∷ priority_critical ∷ [])
          (record { active_jobs = []; delayed_jobs = 0; dead_letter_jobs = 0 }) s in
      (result, (r, s'))

  -- RedisQueue as a QueuePort
  abbrev pub redis_queue : QueuePort S
  redis_queue = record {
    enqueue = enqueue;
    dequeue = dequeue;
    enqueue_delayed = enqueue_delayed;
    move_to_dead_letter = move_to_dead_letter;
    get_queue_stats = get_queue_stats;
    process_delayed_jobs = process_delayed_jobs;
  }
