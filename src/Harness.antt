-- ===== src/Harness.antt =====
-- src/harness: the loop of an agent, its tools and what guards them.
pub mod DoomLoopGuard
pub mod Permissions
pub mod Semaphore
pub mod Tools
pub mod ToolPipeline
pub mod AgentLoop
pub mod RetryPolicy
