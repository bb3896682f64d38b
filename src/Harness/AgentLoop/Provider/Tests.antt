-- ===== src/Harness/AgentLoop/Provider/Tests.antt =====
-- A provider that asks for one tool and then answers; the world counts the streams.
use reins_core.Prelude.{
  ℕ, suc, ◌≡◌, refl, none, some, List, [], ◌∷◌, ltb, false, leb, if◌then◌else◌,
}
use reins_core.Prelude.Text.{units}
use reins_core.Harness.Tools.{ToolCall, text, Attempt, returns}
use reins_core.Harness.AgentLoop.Parts.{text_only_response}
use reins_core.Harness.AgentLoop.Provider.Parts
use reins_core.Harness.AgentLoop.Provider.Parts.{
  given, StreamEvent, LoopEvent, text_block, tool_use, tool_result, all_blocks,
  finalize_loop_content,
}
use reins_core.Harness.AgentLoop.Provider.Data.{Environment, ended}
use reins_core.Harness.AgentLoop.Provider.{run_with_provider}
use reins_core.Tools.Executor

abbrev executor : Executor.Environment ℕ ℕ ℕ
executor = record {
  find_tool =
      λ name. some (λ a w. (returns (record { result = text (units "42"); error = none }), w));
  signal = none;
  times_out = λ call w. false;
  show = λ n. [];
}

abbrev counting : ToolCall ℕ
counting = record { id = units "c1"; name = units "count"; arguments = 0 }

abbrev pull : StreamEvent ℕ ℕ → ℕ → Attempt (StreamEvent ℕ ℕ) × ℕ
pull event w = (returns event, w)

abbrev asks : List (ℕ → Attempt (StreamEvent ℕ ℕ) × ℕ)
asks = pull (Parts.tool_call_start counting) ∷ pull (Parts.done 7 (units "tool_use")) ∷ []

abbrev answers : List (ℕ → Attempt (StreamEvent ℕ ℕ) × ℕ)
answers =
    pull (Parts.token (units "It is "))
    ∷ pull (Parts.token (units "42."))
    ∷ pull (Parts.done 9 (units "stop"))
    ∷ []

-- The signal of the loop is never aborted, so that the calls are executed one by one.
abbrev env : Environment ℕ ℕ ℕ ℕ ℕ
env = record {
  compact = λ messages w. (none, messages, w);
  stream = λ messages w. (if ltb w 1 then asks else answers, suc w);
  loop_signal = some (λ w. leb 100 w);
  tool_signal = none;
  executor = executor;
  to_signature = λ call. "";
  stringify = λ output. [];
}

answered :
    run_with_provider env 25 (given 0 ∷ []) none 0
    ≡ ended
        (Parts.tool_call_start counting
          ∷ Parts.tool_call_end (record {
            call_id = units "c1";
            name = units "count";
            result = text (units "42");
            error = none;
          })
          ∷ Parts.token (units "It is ")
          ∷ Parts.token (units "42.")
          ∷ [])
        (Parts.done (record {
          usage = some 9;
          finish_reason = units "stop";
          termination_reason = text_only_response;
          content = all_blocks (
              tool_use (units "c1") (units "count") 0
              ∷ tool_result (units "c1") (units "42") false
              ∷ text_block (units "It is 42.")
              ∷ []);
          limit_reached = false;
          steps_used = 1;
        }))
unfolding run_with_provider finalize_loop_content Executor.execute
answered = refl
