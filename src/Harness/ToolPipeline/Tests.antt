-- ===== src/Harness/ToolPipeline/Tests.antt =====
-- A long text, a pipeline with a hook that throws, and the loop over both.
use reins_core.Prelude.{
  ℕ, suc, ◌≡◌, refl, none, some, Option, [], ◌∷◌, leb, false, if◌then◌else◌, replicate,
}
use reins_core.Prelude.Text.{Text, units}
use reins_core.Harness.Tools.{Output, value, returns, throws}
use reins_core.Harness.ToolPipeline.{Environment, truncate_output}
use reins_core.Harness.ToolPipeline.Truncation.{IsCut, truncate_output_lem}
use reins_core.Harness.AgentLoop.Parts
use reins_core.Harness.AgentLoop.Parts.{StepResult}
use reins_core.Harness.AgentLoop.Run.{initial, run}
use reins_core.Harness.AgentLoop.Run.Transcript.{Finishes}
use reins_core.Harness.AgentLoop.Composed.{over_pipeline, composed_run-Finishes}
use reins_core.Tools.Executor

abbrev stringify : Output ℕ → Option Text
stringify output = some (replicate 40 120)

cut_output : (truncate_output stringify 20 (value 3)).1 ≡ some 40
unfolding truncate_output
cut_output = refl

truncate_output_lem_example :
    IsCut stringify 20
      (value 3)
      (truncate_output stringify 20 (value 3)).0
      (truncate_output stringify 20 (value 3)).1
truncate_output_lem_example = truncate_output_lem stringify 20 (value 3)

abbrev executor : Executor.Environment ℕ ℕ ℕ
executor = record {
  find_tool = λ name. some (λ a w. (returns (record { result = value w; error = none }), suc w));
  signal = none;
  times_out = λ call w. leb 100 w;
  show = λ n. [];
}

abbrev pipeline : Environment ℕ ℕ ℕ
pipeline = record {
  execute_with_timeout = λ call timeout_ms w. (throws [], w);
  before_hooks =
      (λ call w. (if leb 1 call.arguments then throws (units "blocked") else returns tt, w)) ∷ [];
  after_hooks = (λ result call w. (throws [], suc w)) ∷ [];
  max_output_length = 10000;
  default_timeout_ms = 30000;
  is_aborted = λ w. false;
  now = λ w. w;
  stringify = stringify;
  emit_tool_call_start = λ call w. w;
  emit_tool_call_end = λ result w. w;
}

abbrev calls_step : StepResult ℕ ℕ
calls_step = record {
  type = Parts.tool_calls;
  content = none;
  tool_calls = some (
      record { id = units "c1"; name = units "count"; arguments = 0 }
      ∷ record { id = units "c2"; name = units "count"; arguments = 1 }
      ∷ []);
  error = none;
}

abbrev loop_env : Parts.Environment ℕ ℕ ℕ
loop_env = record {
  step_fn = λ messages disabled w. (returns calls_step, w);
  is_aborted = λ w. leb 3 w;
  request_permission = none;
  execute_many = none;
  delegation = none;
  task = λ a. none;
  to_signature = λ call. "";
  serialize = λ results. [];
  emit_error = λ message w. w;
  emit_aborted = λ w. w;
}

composed_run-Finishes_example :
    Finishes
      (over_pipeline executor pipeline loop_env)
      25
      (initial (over_pipeline executor pipeline loop_env) 25 [] none 0)
      (run (over_pipeline executor pipeline loop_env) 25 [] none 0)
composed_run-Finishes_example = composed_run-Finishes executor pipeline loop_env 25 [] none 0
