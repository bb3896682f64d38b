-- ===== src/Harness/AgentLoop/Composed.antt =====
-- The loop over the pipeline of src/harness/tool-pipeline.ts, and that over the executor of
-- src/tools/executor.ts, as the options `toolPipeline` and `executor` put them together.
use reins_core.Prelude.{ℕ, ◌≡◌, subst, Option, some, List, some_inj}
use reins_core.Harness.DoomLoopGuard.{DoomLoopGuard}
use reins_core.Harness.Tools.{ToolCall, ToolResult, Attempt, returns}
use reins_core.Harness.AgentLoop.Parts
use reins_core.Harness.AgentLoop.Parts.{AgentMessage}
use reins_core.Harness.AgentLoop.ToolCalls.Results.{Answers, PipelineAnswers}
use reins_core.Harness.AgentLoop.Run.{initial, run}
use reins_core.Harness.AgentLoop.Run.Transcript.{Finishes, run-Finishes}
use reins_core.Harness.ToolPipeline
use reins_core.Harness.ToolPipeline.Answers.{ExecutorAnswers, execute_many-Answers}
use reins_core.Tools.Executor
use reins_core.Tools.Executor.Batches.{execute_with_timeout-IsOf}

module _ {Arguments Value W : Type 0} (executor : Executor.Environment Arguments Value W) where
  -- `executeWithTimeout`, which throws nothing of its own.
  abbrev pub as_attempt : ToolCall Arguments → ℕ → W → Attempt (ToolResult Value) × W
  as_attempt call timeout_ms w =
      let (result, w') = Executor.execute_with_timeout executor call timeout_ms w in
      (returns result, w')

  abbrev pub over_executor :
      ToolPipeline.Environment Arguments Value W → ToolPipeline.Environment Arguments Value W
  over_executor pipeline = record pipeline { execute_with_timeout = as_attempt }

  abbrev pub over_pipeline :
      ToolPipeline.Environment Arguments Value W
      → Parts.Environment Arguments Value W
      → Parts.Environment Arguments Value W
  over_pipeline pipeline env = record env {
    execute_many = some (ToolPipeline.execute_many (over_executor pipeline));
  }

  over_executor-ExecutorAnswers :
      (pipeline : ToolPipeline.Environment Arguments Value W)
      → ExecutorAnswers (over_executor pipeline)
  over_executor-ExecutorAnswers pipeline call timeout_ms w result e =
      let of_call = (execute_with_timeout-IsOf executor call timeout_ms w).0 in cc

  over_pipeline-PipelineAnswers :
      (pipeline : ToolPipeline.Environment Arguments Value W)
      (env : Parts.Environment Arguments Value W)
      → PipelineAnswers (over_pipeline pipeline env)
  over_pipeline-PipelineAnswers pipeline env execute e calls w =
      let same : ToolPipeline.execute_many (over_executor pipeline) ≡ execute = some_inj e in
      subst (λ f. Answers calls (f calls w).0) same
        (execute_many-Answers (over_executor pipeline) calls w
          (over_executor-ExecutorAnswers pipeline))

  -- Over the pipeline and the executor, whatever the tools, the hooks and the step function do, a run
  -- ends with rounds of calls, each with the results that answer them, and an end that fits its reason,
  -- or throws what the step function throws.
  pub composed_run-Finishes :
      (pipeline : ToolPipeline.Environment Arguments Value W)
      (env : Parts.Environment Arguments Value W) (max_steps : ℕ)
      (messages : List (AgentMessage Arguments Value)) (guard : Option DoomLoopGuard) (w : W)
      → Finishes
          (over_pipeline pipeline env)
          max_steps
          (initial (over_pipeline pipeline env) max_steps messages guard w)
          (run (over_pipeline pipeline env) max_steps messages guard w)
  composed_run-Finishes pipeline env max_steps messages guard w =
      run-Finishes (over_pipeline pipeline env) max_steps messages guard w
        (over_pipeline-PipelineAnswers pipeline env)
