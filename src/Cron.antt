-- ===== src/Cron.antt =====
-- src/cron: scheduled jobs, their expressions, the scheduler and its rate limit.
pub mod Expression
pub mod Job
mod Samples
pub mod NextRun
pub mod RateLimit
pub mod Scheduler
