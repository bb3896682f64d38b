-- ===== src/Harness/AgentLoop.antt =====
-- src/harness/agent-loop.ts: `AgentLoop.run`, `AgentLoop.runWithProvider` and what they call. The step
-- function, the provider, the signals, the permission checker, the tool pipeline, the delegate and the
-- event bus act on a world; a step function, a delegate or a stream may throw. The guard is that of
-- Harness.DoomLoopGuard. The callees do not change the array of messages that they are handed.
pub mod Parts
pub mod ToolCalls
pub mod Run
pub mod Composed
pub mod Provider
