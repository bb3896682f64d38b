-- ===== src/Cron/Scheduler.antt =====
-- src/cron/scheduler.ts: `CronScheduler` over the interface `CronStore` of src/cron/store.ts. A call
-- takes the time of its `now()`; calls do not overlap, and an execution does not call the scheduler.
pub mod Defs
pub mod Executing
pub mod Ticks
pub mod Calls
pub mod Changes
mod Tests
