-- ===== src/Harness/ToolPipeline.antt =====
-- src/harness/tool-pipeline.ts: `ToolPipeline`. The hooks, the executor, the event bus and the clock
-- act on a world; hooks and the executor may throw. The calls of a batch, which run at once, are taken
-- one after the other. A clock that goes back gives a duration of 0.
pub mod Answers
pub mod Truncation
mod Tests
use reins_core.Prelude.{
  ℕ, zero, suc, ◌+◌, ◌-◌, Bool, true, false, Option, none, some, List, [], ◌∷◌, ◌++◌, leb,
  if◌then◌else◌, length, take,
}
use reins_core.Prelude.Text.{Text, units, trim}
use reins_core.Prelude.Numbers.{Number, not_finite, negative, finite}
use reins_core.Harness.Tools.{
  ToolCall, Status, success, error, truncated, Output, text, null, value, ToolPipelineResult,
  create_error_result, ToolResult, Attempt, returns, throws,
}

-- `execute_with_timeout` is the executor's; `stringify` is `JSON.stringify` where that gives a text.
pub record Environment (Arguments Value W : Type 0) : Type 0 where
  pub execute_with_timeout : ToolCall Arguments → ℕ → W → Attempt (ToolResult Value) × W
  pub before_hooks : List (ToolCall Arguments → W → Attempt (Unit {0}) × W)
  pub after_hooks :
      List (ToolPipelineResult Value → ToolCall Arguments → W → Attempt (Unit {0}) × W)
  pub max_output_length : ℕ
  pub default_timeout_ms : ℕ
  pub is_aborted : W → Bool
  pub now : W → ℕ
  pub stringify : Output Value → Option Text
  pub emit_tool_call_start : ToolCall Arguments → W → W
  pub emit_tool_call_end : ToolPipelineResult Value → W → W

-- `getValidLimit`, for the two limits.
unfoldable pub get_valid_limit : Option Number → ℕ → ℕ
get_valid_limit none fallback = fallback
get_valid_limit (some not_finite) fallback = fallback
get_valid_limit (some negative) fallback = 0
get_valid_limit (some (finite floor)) fallback = floor

abbrev is_nil : Text → Bool
is_nil [] = true
is_nil (c ∷ cs) = false

abbrev pub truncation_suffix : Text
truncation_suffix = units "...(truncated)"

unfoldable pub truncate_text : (max_output_length : ℕ) → Text → Text
truncate_text max_output_length content =
    take (max_output_length - length truncation_suffix) content ++ truncation_suffix

-- The output that is kept, given its text, if it has one, and, where it was cut, the length before.
abbrev pub truncate_serialized :
    {Value : Type 0} → ℕ → Output Value → Option Text → Output Value × Option ℕ
truncate_serialized max_output_length output none = (output, none)
truncate_serialized max_output_length output (some serialized) =
    if leb (length serialized) max_output_length
    then (output, none)
    else (text (truncate_text max_output_length serialized), some (length serialized))

unfoldable pub truncate_output :
    {Value : Type 0} → (Output Value → Option Text) → ℕ → Output Value → Output Value × Option ℕ
unfolding truncate_text
truncate_output stringify zero output = (output, none)
truncate_output stringify (suc n) (text t) = truncate_serialized (suc n) (text t) (some t)
truncate_output stringify (suc n) output = truncate_serialized (suc n) output (stringify output)

-- `formatError` of a thrown error.
abbrev format_error : Text → Text
format_error message = if is_nil (trim message) then units "Tool execution failed" else message

module _ {Arguments Value W : Type 0} (env : Environment Arguments Value W) where
  abbrev kept_result : ToolResult Value → ℕ → Output Value × Option ℕ → ToolPipelineResult Value
  kept_result result duration_ms (output, none) = record {
    status = success;
    output = output;
    call_id = result.call_id;
    name = result.name;
    duration_ms = duration_ms;
    was_truncated = false;
    original_length = none;
  }
  kept_result result duration_ms (output, some original) = record {
    status = truncated;
    output = output;
    call_id = result.call_id;
    name = result.name;
    duration_ms = duration_ms;
    was_truncated = true;
    original_length = some original;
  }

  abbrev error_result : ToolResult Value → ℕ → Text → ToolPipelineResult Value
  error_result result duration_ms message = record {
    status = error;
    output = text message;
    call_id = result.call_id;
    name = result.name;
    duration_ms = duration_ms;
    was_truncated = false;
    original_length = none;
  }

  -- By the error of the result; an empty one is none.
  abbrev normalize_by : Option Text → ToolResult Value → ℕ → ToolPipelineResult Value
  normalize_by (some (c ∷ cs)) result duration_ms = error_result result duration_ms (c ∷ cs)
  normalize_by _ result duration_ms =
      kept_result result duration_ms
        (truncate_output env.stringify env.max_output_length result.result)

  unfoldable pub normalize_tool_result :
      ToolResult Value → (duration_ms : ℕ) → ToolPipelineResult Value
  normalize_tool_result result duration_ms = normalize_by result.error result duration_ms

  -- The first hook that throws ends them.
  run_before_hooks :
      List (ToolCall Arguments → W → Attempt (Unit {0}) × W)
      → ToolCall Arguments
      → W
      → Attempt (Unit {0}) × W
  run_before_hooks [] call w = (returns tt, w)
  run_before_hooks (hook ∷ hooks) call w =
      let (answer, w') = hook call w in
      let rest = run_before_hooks hooks call w' in
      elim answer [ returns _ ↦ rest | throws message ↦ (throws message, w') ]

  -- What an after hook throws is caught.
  run_after_hooks :
      List (ToolPipelineResult Value → ToolCall Arguments → W → Attempt (Unit {0}) × W)
      → ToolPipelineResult Value
      → ToolCall Arguments
      → W
      → W
  run_after_hooks [] result call w = w
  run_after_hooks (hook ∷ hooks) result call w =
      run_after_hooks hooks result call (hook result call w).1

  -- The part of the `try` that may throw.
  unfoldable pub attempt : ToolCall Arguments → W → Attempt (ToolResult Value) × W
  unfolding run_before_hooks
  attempt call w =
      if env.is_aborted w
      then (throws (units "Tool execution aborted"), w)
      else (let (hooked, w') =
            run_before_hooks env.before_hooks call (env.emit_tool_call_start call w) in
          elim hooked [
            | throws message ↦ (throws message, w')
            | returns _ ↦ env.execute_with_timeout call env.default_timeout_ms w'
          ])

  unfoldable pub execute : ToolCall Arguments → W → ToolPipelineResult Value × W
  unfolding attempt normalize_tool_result run_after_hooks
  execute call w =
      let (answer, w') = attempt call w in
      let duration_ms = env.now w' - env.now w in
      let result : ToolPipelineResult Value = elim answer [
        | returns tool_result ↦ normalize_tool_result tool_result duration_ms
        | throws message ↦ create_error_result call duration_ms (format_error message)
      ] in
      (result, env.emit_tool_call_end result (run_after_hooks env.after_hooks result call w'))

  -- `executeMany`: no call of `execute` is rejected.
  unfoldable pub execute_many : List (ToolCall Arguments) → W → List (ToolPipelineResult Value) × W
  unfolding execute
  execute_many [] w = ([], w)
  execute_many (call ∷ calls) w =
      let (result, w') = execute call w in
      let (results, w'') = execute_many calls w' in (result ∷ results, w'')
