-- ===== src/Examples/Queue.antt =====
-- Runs of internal/adapters/secondary/queue/memory.go.
use job_schedular_service.Base.{pos, ◌≡◌, refl, arith, some, [], ◌∷◌}
use job_schedular_service.Base.Map.{get, nat_key, int_key}
use job_schedular_service.Domain.Priority.{
  priority_critical, priority_high, priority_medium, priority_low,
}
use job_schedular_service.Runtime.{now}
use job_schedular_service.Memory.Queue.{
  State, new_memory_queue, enqueue, dequeue, queued, process_delayed_jobs,
}
use job_schedular_service.Memory.Queue.Invariant.{IsWellFormed, enqueue-IsWellFormed}
use job_schedular_service.Memory.Queue.Order.{Served, dequeue-Served}
use job_schedular_service.Memory.Queue.Fifo.{enqueue_all, dequeue_times, fifo}
use job_schedular_service.Memory.Queue.Delayed.{Promotes, process_delayed_jobs-Promotes}
use job_schedular_service.Memory.Queue.Lanes.{after_dequeues, unasked_starves}
use job_schedular_service.Memory.Queue.Reachable.{
  IsSound, fresh, later, enqueues, dequeues, Reachable-IsSound,
}
use job_schedular_service.Examples.{runtime, waiting_queue, same_order}

fifo_example :
    dequeue_times 2
      (priority_high ∷ priority_low ∷ [])
      (enqueue_all (1 ∷ 2 ∷ []) (runtime, waiting_queue))
    ≡ some 1 ∷ some 2 ∷ []
unfolding queued get
fifo_example =
    fifo runtime waiting_queue priority_high (priority_low ∷ []) (1 ∷ 2 ∷ []) refl
      (refl, (refl, tt)) ((refl, tt), (tt, tt))

pub waiting_queue-IsWellFormed : IsWellFormed runtime waiting_queue
unfolding queued get
waiting_queue-IsWellFormed = record {
  lanes = tt;
  delays = (refl, (refl, tt));
  waiting = λ p. tt;
  delayed = λ id h. ground arith;
  keyed = λ id p h. ground arith;
}

dequeue-Served_example :
    let ((job, err), s) = dequeue (priority_high ∷ []) (enqueue 1 (runtime, waiting_queue)).1 in
    (s.0 ≡ runtime)
    × Served (enqueue 1 (runtime, waiting_queue)).1.1 (priority_high ∷ []) (job, err, s.1)
unfolding enqueue
dequeue-Served_example =
    dequeue-Served runtime (enqueue 1 (runtime, waiting_queue)).1.1 (priority_high ∷ [])
      (enqueue-IsWellFormed 1 runtime waiting_queue waiting_queue-IsWellFormed)

process_delayed_jobs-Promotes_example :
    Promotes
      (pos 1000)
      waiting_queue.delayed_jobs
      runtime
      waiting_queue
      (process_delayed_jobs same_order (runtime, waiting_queue)).1
unfolding now
process_delayed_jobs-Promotes_example =
    process_delayed_jobs-Promotes same_order runtime waiting_queue waiting_queue-IsWellFormed
      (record { once = waiting_queue-IsWellFormed.delays; same = λ id. refl })

-- A job that was made is put into the queue and taken out again.
abbrev used_queue : State
used_queue = (dequeue (priority_high ∷ []) (enqueue 1 (runtime, new_memory_queue)).1).1

Reachable-IsSound_example : IsSound used_queue
Reachable-IsSound_example =
    Reachable-IsSound
      (later (later (fresh runtime) (enqueues 1 (omega arith))) (dequeues (priority_high ∷ [])))

unasked_starves_example :
    queued
      (after_dequeues 3
        (priority_critical ∷ priority_medium ∷ priority_low ∷ [])
        (enqueue 1 (runtime, waiting_queue)).1).1.queues
      priority_high
    ≡ 101 ∷ []
unfolding queued get
unasked_starves_example =
    unasked_starves 3 (priority_critical ∷ priority_medium ∷ priority_low ∷ []) 1 runtime
      waiting_queue (refl, (refl, (refl, tt)))
