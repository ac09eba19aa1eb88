-- ===== src/Lib.antt =====
-- A job scheduling service in Go. A client schedules jobs (internal/core/services/schedular.go);
-- workers take them from a queue, run their handlers, and retry the ones that fail
-- (internal/core/services/processor.go). The services know the storage and the queue as ports
-- (internal/core/ports), with adapters in memory, on Redis and on Postgres.
--
-- The files, and what they model:
--   Base       lists, maps, tests, and the 64-bit integers of Go, whose arithmetic wraps
--   Domain     internal/core/domain: Priority is priority.go, Retry is retry.go, Job is job.go
--   Config     internal/config/config.go, and NewRetryPolicy of internal/core/domain/retry.go
--   Runtime    what a process shares: the job structs behind pointers, the clock, new ids
--   Ports      internal/core/ports: the ports are records of operations
--   Memory     internal/adapters/secondary: Queue is queue/memory.go, Storage is storage/memory.go
--   Redis      internal/adapters/secondary/queue/redis.go; Commands says what the server documents
--   Postgres   internal/adapters/secondary/storage/postgres.go: Conversion, Jobs and Workers are its
--              methods, Tables says what the database documents
--   Services   internal/core/services: Scheduler is schedular.go, Processor is processor.go
--   Pipeline   what the services do to a memory queue, call by call, with the jobs that workers hold
--   Runner     internal/adapters/primary/worker/runner.go
--   Mocks      internal/adapters/secondary: metric/mock_metrics.go and logger/mock_logger.go
--   Commands   cmd/schedular/main.go (Schedular) and cmd/worker/main.go (Worker), and the wiring
--   Rest       internal/adapters/primary/rest_api/handler.go
--   Handlers   pkg/handlers: email.go and payments.go; Mock is their mock services
--   Examples   small concrete worlds to which the theorems apply
--
-- Correspondence: a method's name is the source's in lower case (MoveToDeadLetter is
-- move_to_dead_letter). A method that changes state is a function from the state to a result and
-- the new state. `*domain.Job` is an address in the runtime's table of jobs: the storage and the
-- queue hold addresses, so that a write of one is seen by the other, as in Go. An `error` is its
-- message, and a nil error is none. A Go map is an association list; where the source ranges over a
-- map, the order is a parameter. The clock is a sequence of readings, on which nothing is assumed.
-- Each method of the memory adapters holds its lock from beginning to end and is one step; what
-- goroutines do to a shared memory queue is a step relation (Memory/Queue/Reachable.antt). The
-- methods of the other adapters send one command after the other, each of which is a function of the
-- server's state. A worker is a step relation on its goroutines (Runner.antt), in which a heartbeat
-- may come at any time, and a call of ProcessNextJob begins in one step and ends in another, where
-- all that it does is done; that may be after the context is done. Pipeline.antt is the contract
-- between the services and a memory queue: its steps are the single calls of the queue, in any
-- order, and Pipeline/Next.antt and Pipeline/Scheduling.antt say that the services take such steps.
--
-- Parameters: the environment, strconv.Atoi and time.ParseDuration, the text of a uuid, the results
-- of uuid.New and uuid.Parse, what gin makes of a request, json.Unmarshal of a payload, the
-- conversion of a float64 beyond the range of int64, math/rand and time.Sleep, the commands of the
-- Redis client, the calls of gorm, json.Marshal and json.Unmarshal of a job and of its fields, and
-- the handlers. The theorems on Redis and Postgres assume of a server that it can be reached and
-- does what is documented: an instance of `Documented` in Redis/Commands.antt and
-- Postgres/Tables.antt, and of `DocumentedWorkers` in Postgres/WorkerTable.antt, of which Examples
-- has one each. A theorem on the outcome of a job assumes of its handler that it returns the given
-- outcome whenever the job has the payload that it has, and leaves the job as it found it (Runs of
-- Services/Attempt.antt). There is no fuel: every loop is a recursion on a list, or on the number
-- of calls that the theorem names.
--
-- Not modelled: contexts and deadlines as arguments of the calls, the lines that the memory adapters
-- print, the transactions and the schema of the database, and of the commands the construction of the
-- adapters and what net/http does with a connection.
pub mod Base
pub mod Domain
pub mod Config
pub mod Runtime
pub mod Ports
pub mod Services
pub mod Rest
pub mod Handlers
pub mod Pipeline
pub mod Runner
pub mod Mocks
pub mod Commands
pub mod Memory
pub mod Redis
pub mod Postgres
pub mod Examples
