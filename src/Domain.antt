-- ===== src/Domain.antt =====
-- internal/core/domain: the job entity, its priority and its retry policy.
pub mod Priority
pub mod Retry
pub mod Job
