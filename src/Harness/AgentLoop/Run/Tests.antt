-- ===== src/Harness/AgentLoop/Run/Tests.antt =====
-- A loop whose step function asks for a tool until it has one result: the world counts its calls.
use reins_core.Prelude.{
  ℕ, suc, ◌≡◌, refl, false, none, some, List, [], ◌∷◌, ◌++◌, ltb, if◌then◌else◌, some_inj, subst,
}
use reins_core.Prelude.Text.{units}
use reins_core.Harness.Tools.{ToolCall, ToolPipelineResult, returns, create_error_result}
use reins_core.Harness.AgentLoop.Parts
use reins_core.Harness.AgentLoop.Parts.{
  AgentMessage, StepResult, Environment, max_steps_reached, text_only_response,
}
use reins_core.Harness.AgentLoop.ToolCalls.{execute_tool_calls}
use reins_core.Harness.AgentLoop.ToolCalls.Results.{
  Answers, PipelineAnswers, execute_tool_calls-Answers,
}
use reins_core.Harness.AgentLoop.ToolCalls.Permitted.{Settles, Executes, execute_tool_calls-Settles}
use reins_core.Harness.AgentLoop.Run.{Result, returned, initial, run}
use reins_core.Harness.AgentLoop.Run.Transcript.{Finishes, run-Finishes}

abbrev reading : ToolCall ℕ
reading = record { id = units "c1"; name = units "read"; arguments = 0 }

abbrev writing : ToolCall ℕ
writing = record { id = units "c2"; name = units "write"; arguments = 1 }

abbrev calls_step : StepResult ℕ ℕ
calls_step = record {
  type = Parts.tool_calls;
  content = none;
  tool_calls = some (reading ∷ writing ∷ []);
  error = none;
}

abbrev text_step : StepResult ℕ ℕ
text_step = record {
  type = Parts.text;
  content = some (units "Done.");
  tool_calls = none;
  error = none;
}

abbrev fail_all : List (ToolCall ℕ) → List (ToolPipelineResult ℕ)
fail_all [] = []
fail_all (call ∷ calls) = create_error_result call 5 (units "no such file") ∷ fail_all calls

-- Only the first call is permitted.
abbrev env : Environment ℕ ℕ ℕ
env = record {
  step_fn = λ messages disabled w. (returns (if ltb w 1 then calls_step else text_step), suc w);
  is_aborted = λ w. false;
  request_permission = some (λ call w. (ltb call.arguments 1, w));
  execute_many = some (λ calls w. (fail_all calls, w));
  delegation = none;
  task = λ a. none;
  to_signature = λ call. "";
  serialize = λ results. units "[]";
  emit_error = λ message w. w;
  emit_aborted = λ w. w;
}

Answers-fail_all : (calls : List (ToolCall ℕ)) → Answers calls (fail_all calls)
Answers-fail_all [] = refl
Answers-fail_all (call ∷ calls) = let rest = Answers-fail_all calls in cc

env-PipelineAnswers : PipelineAnswers env
env-PipelineAnswers execute e calls w =
    let same : (λ (calls : List (ToolCall ℕ)) (w : ℕ). (fail_all calls, w)) ≡ execute =
      some_inj e in
    subst (λ f. Answers calls (f calls w).0) same (Answers-fail_all calls)

abbrev question : List (AgentMessage ℕ ℕ)
question =
    record {
      role = Parts.user;
      content = units "Please read and write.";
      tool_calls = [];
      tool_results = [];
    }
    ∷ []

run-Finishes_example : Finishes env 25 (initial env 25 question none 0) (run env 25 question none 0)
run-Finishes_example = run-Finishes env 25 question none 0 env-PipelineAnswers

execute_tool_calls-Answers_example :
    Answers
      (reading ∷ writing ∷ [])
      (execute_tool_calls env (reading ∷ writing ∷ []) question none 1).0
execute_tool_calls-Answers_example =
    execute_tool_calls-Answers env (reading ∷ writing ∷ []) question none 1 env-PipelineAnswers

execute_tool_calls-Settles_example :
    (ran : List (ToolCall ℕ)) × (asked : ℕ) × Settles env question
      (reading ∷ writing ∷ [])
      1
      ran
      asked
    × Executes env question env.execute_many ran asked
        (execute_tool_calls env (reading ∷ writing ∷ []) question none 1).2
execute_tool_calls-Settles_example =
    execute_tool_calls-Settles env question (reading ∷ writing ∷ []) none 1

-- The run ends after one round of calls.
abbrev answer : Result ℕ ℕ ℕ
answer = record {
  state = record {
    messages =
        question
        ++ record {
          role = Parts.assistant;
          content = [];
          tool_calls = reading ∷ writing ∷ [];
          tool_results = [];
        }
          ∷ record {
            role = Parts.tool;
            content = units "[]";
            tool_calls = [];
            tool_results =
                create_error_result reading 5 (units "no such file")
                ∷ create_error_result writing 0 (units "Permission denied for tool: write")
                ∷ [];
          }
          ∷ record {
            role = Parts.assistant;
            content = units "Done.";
            tool_calls = [];
            tool_results = [];
          }
          ∷ [];
    steps_used = 1;
    guard = none;
    world = 2;
  };
  limit_reached = false;
  reason = text_only_response;
}

run_answers : run env 25 question none 0 ≡ returned answer
unfolding run execute_tool_calls
run_answers = refl
