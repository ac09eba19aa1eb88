-- ===== src/Examples/Rest.antt =====
-- Runs of internal/adapters/primary/rest_api/handler.go, with the memory adapters.
use job_schedular_service.Base.{pos, ◌≡◌, some, none}
use job_schedular_service.Base.Map.{get, nat_key}
use job_schedular_service.Domain.Priority.{priority_high}
use job_schedular_service.Domain.Job.{job_type_email}
use job_schedular_service.Memory.Ports.{memory_storage, memory_queue}
use job_schedular_service.Rest.{respond, failure, one_job, bound, schedule_job, get_job}
use job_schedular_service.Rest.Responses.{get_job_response, schedule_job-get_job}
use job_schedular_service.Services.Scheduler.{ScheduleJobRequest}
use job_schedular_service.Examples.{world, same_order}

abbrev posted : ScheduleJobRequest
posted = record {
  job_type = job_type_email;
  priority = priority_high;
  payload = "{}";
  metadata = none;
  retry_policy = none;
  schedule_at = some (pos 9999);
}

get_job_response_example :
    get_job (memory_storage same_order same_order) (memory_queue same_order) (some 555) world
    ≡ (respond 404 (failure "job not found"), world)
unfolding get
get_job_response_example = get_job_response same_order same_order same_order (some 555) world

schedule_job-get_job_example :
    let (response, after) =
      schedule_job
        (memory_storage same_order same_order)
        (memory_queue same_order)
        (bound posted)
        world in
    (response ≡ respond 201 (one_job (some 7)))
    × (get_job (memory_storage same_order same_order) (memory_queue same_order) (some 0) after
        ≡ (respond 200 (one_job (some 7)), after))
schedule_job-get_job_example = schedule_job-get_job same_order same_order same_order posted world
