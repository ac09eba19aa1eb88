-- ===== src/Examples/Redis/Runs.antt =====
-- Runs of internal/adapters/secondary/queue/redis.go on the server in memory.
use job_schedular_service.Base.{
  int_eqb, pos, ◌+◌, ◌≤◌, ◌≡◌, refl, true, none, some, [], ◌∷◌, ◌≤ℤ◌, ◌<ℤ◌, ◌+ℤ◌, ◌⊎◌,
}
use job_schedular_service.Base.Map.{◌==◌, get, string_key}
use job_schedular_service.Domain.Priority.{priority_low, priority_medium, priority_high, to_int}
use job_schedular_service.Domain.Retry.{Time}
use job_schedular_service.Runtime.{Runtime, now}
use job_schedular_service.Redis.{
  get_queue_name, enqueue, dequeue, enqueue_delayed, process_delayed_jobs, delayed_key, unix,
}
use job_schedular_service.Redis.Lanes.{
  Message, Lanes, Holds, Serves, appended, enqueue-Holds, dequeue-Serves,
}
use job_schedular_service.Redis.Delayed.{AreJobs, Moves, ready_at, process_delayed_jobs-Moves}
use job_schedular_service.Redis.Timing.{enqueue_delayed-due}
use job_schedular_service.Redis.Commands.{occurrences}
use job_schedular_service.Redis.Overlap.{overlapping, overlapping-duplicates}
use job_schedular_service.Redis.Names.{get_queue_name-eq-to_int}
use job_schedular_service.Examples.{runtime}
use job_schedular_service.Examples.Redis.{
  Server, server_client, server_documented, sample, payload_codec,
}

-- Every pointer points to the same job.
abbrev mailroom : Runtime
mailroom = record runtime { cells = λ p. sample "hello" }

abbrev message : Message payload_codec
message = record { text = "hello"; job = sample "hello"; decodes = refl }

abbrev empty_server : Server
empty_server = record { lists = λ key. []; sets = λ key. [] }

abbrev empty_lanes : Lanes payload_codec
empty_lanes name = []

-- A job in each lane.
abbrev full_server : Server
full_server = record { lists = λ key. "hello" ∷ []; sets = λ key. ("hello", pos 0) ∷ [] }

abbrev full_lanes : Lanes payload_codec
full_lanes name = message ∷ []

every_text : (at : Time) (s : Server) → AreJobs server_client payload_codec server_documented at s
every_text at s text h = (sample text, refl, refl)

enqueue-Holds_example :
    let (err, (r', s')) = enqueue server_client payload_codec 0 (mailroom, empty_server) in
    (err ≡ none)
    × (r' ≡ mailroom)
    × Holds server_client payload_codec server_documented s'
        (appended server_client payload_codec server_documented "jobs_high" message empty_lanes)
unfolding server_documented get_queue_name
enqueue-Holds_example =
    enqueue-Holds server_client payload_codec server_documented 0 mailroom empty_server empty_lanes
      message (λ name. refl) refl refl

dequeue-Serves_example :
    Serves server_client payload_codec server_documented mailroom full_lanes
      (priority_high ∷ priority_low ∷ [])
      (dequeue server_client payload_codec
        (priority_high ∷ priority_low ∷ [])
        (mailroom, full_server))
unfolding server_documented
dequeue-Serves_example =
    dequeue-Serves server_client payload_codec server_documented priority_high (priority_low ∷ [])
      mailroom full_server full_lanes (λ name. refl)

process_delayed_jobs-Moves_example :
    let (err, (r', s')) =
      process_delayed_jobs server_client payload_codec (mailroom, full_server) in
    (err ≡ none)
    × (r' ≡ (now mailroom).1)
    × Moves server_client payload_codec server_documented (now mailroom).0 full_server s'
process_delayed_jobs-Moves_example =
    process_delayed_jobs-Moves server_client payload_codec server_documented mailroom full_server
      (every_text (now mailroom).0 full_server)

enqueue_delayed-due_example :
    let waiting =
      (enqueue_delayed server_client payload_codec 0 (pos 5) (mailroom, empty_server)).1 in
    let (r', s') = (process_delayed_jobs server_client payload_codec waiting).1 in
    let left = server_documented.score s' delayed_key "hello" in
    ((pos 5 <ℤ pos 0) × (left ≡ some (unix (pos 5))))
    ⊎ (((pos 0 ≤ℤ pos 5) × (pos 5 <ℤ (now mailroom).0 +ℤ pos 1000000000) × (left ≡ none))
        ⊎ (((now mailroom).0 <ℤ pos 5) × (left ≡ some (unix (pos 5)))))
enqueue_delayed-due_example =
    enqueue_delayed-due server_client payload_codec server_documented 0 (pos 5) mailroom
      empty_server "hello" refl refl (every_text (now mailroom).0 empty_server)

full_server_ready :
    ready_at server_client payload_codec server_documented (pos 5) full_server "hello" ≡ true
unfolding get server_documented
full_server_ready = refl

overlapping-duplicates_example :
    2 + occurrences "hello" (full_server.lists "jobs_high")
    ≤ occurrences "hello"
        ((overlapping server_client payload_codec (pos 5) (pos 5) full_server).lists "jobs_high")
unfolding server_documented get_queue_name
overlapping-duplicates_example =
    overlapping-duplicates server_client payload_codec server_documented (pos 5) (pos 5) full_server
      "hello" "jobs_high" (every_text (pos 5) full_server) (every_text (pos 5) full_server)
      full_server_ready full_server_ready refl

-- A priority without a name shares the lane of the medium one.
get_queue_name-eq-to_int_example :
    (get_queue_name (pos 7) == get_queue_name priority_medium)
    ≡ int_eqb (to_int (pos 7)) (to_int priority_medium)
get_queue_name-eq-to_int_example = get_queue_name-eq-to_int (pos 7) priority_medium
