-- ===== src/Tools/Executor.antt =====
-- src/tools/executor.ts: `ToolExecutor` over the tools of its registry, which act on a world and may
-- throw. The error of a thrown value is its message, as `toSystemToolError` gives it. The calls of a
-- batch without a signal, which run at once, are taken one after the other.
pub mod Batches
mod Tests
use reins_core.Prelude.{
  ℕ, zero, suc, Bool, true, false, ◌&&◌, Option, none, some, List, [], ◌∷◌, ◌++◌, if◌then◌else◌,
}
use reins_core.Prelude.Text.{Text, units}
use reins_core.Harness.Tools.{ToolCall, Output, null, ToolResult, Attempt, returns, throws}

-- What a tool itself gives.
pub record RawResult (Value : Type 0) : Type 0 where
  pub result : Output Value
  pub error : Option Text

-- `signal` says whether the signal is aborted, if there is one; `times_out` whether the timer ends
-- before the call does; `show` writes a number.
pub record Environment (Arguments Value W : Type 0) : Type 0 where
  pub find_tool : Text → Option (Arguments → W → Attempt (RawResult Value) × W)
  pub signal : Option (W → Bool)
  pub times_out : ToolCall Arguments → W → Bool
  pub show : ℕ → Text

module _ {Arguments Value W : Type 0} (env : Environment Arguments Value W) where
  abbrev create_error_result : ToolCall Arguments → Text → ToolResult Value
  create_error_result call message = record {
    call_id = call.id;
    name = call.name;
    result = null;
    error = some message;
  }

  abbrev pub is_aborted : Option (W → Bool) → W → Bool
  is_aborted none w = false
  is_aborted (some aborted) w = aborted w

  abbrev aborted_text : Text
  aborted_text = units "Tool execution aborted"

  abbrev is_none : Option Text → Bool
  is_none none = true
  is_none (some error) = false

  abbrev raw_result : ToolCall Arguments → RawResult Value → W → ToolResult Value
  raw_result call raw w =
      if is_aborted env.signal w && is_none raw.error
      then create_error_result call aborted_text
      else record { call_id = call.id; name = call.name; result = raw.result; error = raw.error }

  run_tool :
      (Arguments → W → Attempt (RawResult Value) × W)
      → ToolCall Arguments
      → W
      → ToolResult Value × W
  run_tool tool call w =
      let (raw, w') = tool call.arguments w in
      elim raw [
        | throws message ↦ (create_error_result call message, w')
        | returns result ↦ (raw_result call result w', w')
      ]

  unfoldable pub execute : ToolCall Arguments → W → ToolResult Value × W
  unfolding run_tool
  execute call w =
      if is_aborted env.signal w
      then (create_error_result call aborted_text, w)
      else elim (env.find_tool call.name) [
        | none ↦ (create_error_result call (units "Tool not found: " ++ call.name), w)
        | some tool ↦ run_tool tool call w
      ]

  -- The loop of a batch with a signal, which stops where the signal is aborted.
  execute_until : (W → Bool) → List (ToolCall Arguments) → W → List (ToolResult Value) × W
  unfolding execute
  execute_until aborted [] w = ([], w)
  execute_until aborted (call ∷ calls) w =
      let run : List (ToolResult Value) × W =
        let (result, w') = execute call w in
        let (results, w'') = execute_until aborted calls w' in (result ∷ results, w'') in
      if aborted w then ([], w) else run

  execute_all : List (ToolCall Arguments) → W → List (ToolResult Value) × W
  unfolding execute
  execute_all [] w = ([], w)
  execute_all (call ∷ calls) w =
      let (result, w') = execute call w in
      let (results, w'') = execute_all calls w' in (result ∷ results, w'')

  execute_by : Option (W → Bool) → List (ToolCall Arguments) → W → List (ToolResult Value) × W
  unfolding execute_until execute_all
  execute_by none calls w = execute_all calls w
  execute_by (some aborted) calls w = execute_until aborted calls w

  unfoldable pub execute_many : List (ToolCall Arguments) → W → List (ToolResult Value) × W
  unfolding execute_by
  execute_many calls w = execute_by env.signal calls w

  abbrev timeout_text : ℕ → Text
  timeout_text timeout_ms =
      units "Tool execution timed out after " ++ env.show timeout_ms ++ units "ms"

  -- A call that times out goes on by itself.
  unfoldable pub execute_with_timeout :
      ToolCall Arguments → (timeout_ms : ℕ) → W → ToolResult Value × W
  unfolding execute
  execute_with_timeout call zero w = (create_error_result call (timeout_text 0), w)
  execute_with_timeout call (suc n) w =
      let (result, w') = execute call w in
      if env.times_out call w
      then (create_error_result call (timeout_text (suc n)), w')
      else (result, w')
