-- ===== src/Lib.antt =====
-- Models of the core of reins: the life cycle of an integration, the guard against agents that
-- repeat themselves, the loop of an agent with its tools and their permissions, the retries of failed
-- calls, the context window, the semaphore of the pool of sub-agents, the references of a browser's
-- elements, the cron scheduler with its expressions and its rate limiter, and the background tasks
-- with their workers.
--
-- The parts, and the files that model them:
-- - Integrations.StateMachine: src/integrations/state-machine.ts, `IntegrationStateMachine`. A state
--   is a constructor of IntegrationState, the methods are functions from the machine to the machine,
--   and the listeners act on a world of their own.
-- - Harness.DoomLoopGuard: src/harness/doom-loop-guard.ts, `DoomLoopGuard`: counters and the window
--   of signatures; Signature has `stableStringify` and `toSignature`.
-- - Harness.Permissions: src/harness/permissions.ts, `PermissionChecker` and its profiles.
-- - Harness.AgentLoop: `AgentLoop.run` of src/harness/agent-loop.ts. Parts has its messages and its
--   environment, in which the step function, the checker, the pipeline, the delegate and the event
--   bus act on a world; ToolCalls is `executeToolCalls`; Run is the loop, which has one unit of fuel
--   more than steps are allowed, since each round but the last counts a step. Provider is
--   `AgentLoop.runWithProvider` in the same way, over the executor. Composed puts the loop of Run over
--   the pipeline and the executor.
-- - Harness.ToolPipeline: src/harness/tool-pipeline.ts, `ToolPipeline`, with the data of Harness.Tools.
-- - Tools.Executor: src/tools/executor.ts, `ToolExecutor`.
-- - Harness.RetryPolicy: src/harness/retry-policy.ts: Classify is `classifyError`, Backoff is
--   `calculateBackoff`, and Run is `retry`, which has one unit of fuel more than attempts are allowed.
-- - Context: src/context: Tokenizer has the estimates of tokens, Strategies the three strategies that
--   wait for no provider, whose loop of drops has one unit of fuel for each message, and Manager is
--   `ContextManager.prepare`.
-- - Browser.ElementRefRegistry: src/browser/element-ref-registry.ts.
-- - Harness.Semaphore: the `Semaphore` of src/harness/sub-agent-pool.ts and the choice of its permits.
-- - Cron.Expression and Cron.NextRun: the functions of src/cron/scheduler.ts that read and match cron
--   expressions and search for a next run (`parseCronField`, `matchesField`, `isJobDue`,
--   `computeNextRunAt`). `Number`, the formatter of dates and the test of a time zone are parameters.
--   The search runs on the code's own bound of 366 * 24 * 60 minutes, which is its fuel.
-- - Cron.Scheduler: `CronScheduler` of src/cron/scheduler.ts over the interface `CronStore` of
--   src/cron/store.ts; the store and the callback act on a world and may fail. The scheduler uses
--   Cron.NextRun for the next run of a job.
-- - Cron.RateLimit: src/cron/rate-limit.ts, `CronRateLimiter`.
-- - Tasks: src/tasks: Store is the table of src/tasks/task-store.ts with the meaning of each SQL
--   statement, Queue is `TaskQueue` of src/tasks/task-queue.ts over it, and Delivery is
--   `TaskDeliveryPipeline` of src/tasks/delivery-pipeline.ts. Lifecycle has the statements that the
--   queue and the delivery issue as steps, so that any interleaving of callers is a sequence of steps;
--   `deleteTask`, and an `updateTask` by anyone else, which only the tests call, are no steps.
--   WorkerManager has the parts of `WorkerManager` of src/tasks/worker-manager.ts between its awaits,
--   over the same table.
-- - Prelude: texts as lists of UTF-16 code units, decimal numbers, JavaScript's Map, lists over native
--   numbers.
--
-- Times are numbers of milliseconds since the epoch, and a call takes the time of its clock. Where the
-- code throws, a result type or an Option says so.
--
-- Not modelled: streams of a provider that never end, the compaction of a context within
-- `AgentLoop.runWithProvider`, the summaries that a provider writes, calls of the scheduler that come
-- between the awaits of a tick (a tick goes through the jobs that are in memory at its start, and the
-- callback acts on a world of its own), timers, the copies of objects that are handed out, the texts
-- of messages, the opening of the database, and the parts of the program that are file, network and
-- terminal I/O.
mod Prelude
pub mod Integrations
pub mod Harness
pub mod Browser
pub mod Context
pub mod Cron
pub mod Tasks
pub mod Tools
