-- ===== src/Harness/RetryPolicy.antt =====
-- src/harness/retry-policy.ts: how a failure is classified, how long to wait for the next attempt, and
-- `retry`. The reasons of the source's texts are constructors. `Number` and `Date.parse` are given from
-- outside, the operation, the callback and the sleep act on a world and may throw; time passes in them.
pub mod Classify
pub mod Backoff
pub mod Run
