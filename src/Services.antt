-- ===== src/Services.antt =====
-- internal/core/services: the two services, over any storage and queue. A service's world is the
-- shared runtime, the states of the two adapters, and what it told the metrics and the logger.
pub mod Scheduler
pub mod Processor
pub mod World
pub mod Stages
pub mod Outcome
pub mod Attempt
pub mod Effects
pub mod Course
pub mod Lifecycle
pub mod Next
pub mod Retries
pub mod Unsaved
pub mod EndToEnd
pub mod Scheduling
