-- ===== src/Tools.antt =====
-- src/tools: the executor that runs a tool call, and the cut of a tool's output.
pub mod Executor
