-- ===== src/Domain/Priority.antt =====
-- internal/core/domain/priority.go. A `Priority` is any `int`: four of them have names.
use job_schedular_service.Base.{ℤ, pos, String, if◌then◌else◌, str_append, int_eqb}

abbrev pub Priority : Type 0
Priority = ℤ

abbrev pub priority_low : Priority
priority_low = pos 1

abbrev pub priority_medium : Priority
priority_medium = pos 2

abbrev pub priority_high : Priority
priority_high = pos 3

abbrev pub priority_critical : Priority
priority_critical = pos 4

-- Priority.ToInt
unfoldable pub to_int : Priority → ℤ
to_int p =
    if int_eqb p priority_low
    then pos 1
    else if int_eqb p priority_medium
    then pos 2
    else if int_eqb p priority_high
    then pos 3
    else if int_eqb p priority_critical
    then pos 4
    else pos 2

-- Priority.String
unfoldable pub to_string : Priority → String
to_string p =
    if int_eqb p priority_low
    then "low"
    else if int_eqb p priority_medium
    then "medium"
    else if int_eqb p priority_high
    then "high"
    else if int_eqb p priority_critical
    then "critical"
    else "medium"

-- Priority.QueueName
unfoldable pub queue_name : Priority → String
unfolding to_string
queue_name p = str_append "jobs_" (to_string p)
