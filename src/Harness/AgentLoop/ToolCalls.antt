-- ===== src/Harness/AgentLoop/ToolCalls.antt =====
-- `executeToolCalls`: which calls are delegated, refused or sent to the pipeline, and the results in
-- the order of the calls.
pub mod Results
pub mod Permitted
use reins_core.Prelude.{
  ℕ, Bool, true, false, Option, none, some, List, [], ◌∷◌, ◌++◌, if◌then◌else◌, or_else,
}
use reins_core.Prelude.Text.{Text, units, trim, text_eq}
use reins_core.Harness.DoomLoopGuard.{DoomLoopGuard, record_failure, record_success}
use reins_core.Harness.Tools.{
  ToolCall, Status, success, error, truncated, Output, text, ToolPipelineResult,
  create_error_result, Attempt, returns, throws,
}
use reins_core.Harness.AgentLoop.Parts
use reins_core.Harness.AgentLoop.Parts.{
  AgentMessage, StepType, StepResult, DelegationContract, Environment,
}

abbrev is_nil : Text → Bool
is_nil [] = true
is_nil (c ∷ cs) = false

-- `recordGuardOutcome`, by the status of the result.
abbrev record_status : Status → DoomLoopGuard → DoomLoopGuard
record_status error guard = record_failure guard
record_status _ guard = record_success guard

module _ {Arguments Value W : Type 0} (env : Environment Arguments Value W) where
  abbrev Call : Type 0
  Call = ToolCall Arguments

  abbrev Outcome : Type 0
  Outcome = ToolPipelineResult Value

  abbrev pub record_guard_outcome : Option DoomLoopGuard → Outcome → Option DoomLoopGuard
  record_guard_outcome none result = none
  record_guard_outcome (some guard) result = some (record_status result.status guard)

  -- The delegate that a call of the tool `delegate` goes to, if it is to be delegated.
  abbrev chosen_delegate :
      Call
      → Option (DelegationContract Arguments Value W)
      → Option (
          Text
          → Call
          → List (AgentMessage Arguments Value)
          → W
          → Attempt (StepResult Arguments Value) × W)
  chosen_delegate call none = none
  chosen_delegate call (some contract) =
      if contract.can_delegate
      then (if text_eq call.name (units "delegate") then contract.delegate else none)
      else none

  unfoldable pub extract_delegation_task : Call → Text
  extract_delegation_task call = elim (env.task call.arguments) [
    | none ↦ units "delegated-task"
    | some task ↦ if is_nil (trim task) then units "delegated-task" else task
  ]

  abbrev delegated_result : Call → StepResult Arguments Value → StepType → Outcome
  delegated_result call step Parts.error =
      create_error_result call 0 (or_else step.error (units "Delegation failed"))
  delegated_result call step Parts.tool_calls =
      create_error_result call 0
        (units "Delegation returned tool calls; nested delegated tool execution is not supported")
  delegated_result call step Parts.text = record {
    status = success;
    output = text (or_else step.content []);
    call_id = call.id;
    name = call.name;
    duration_ms = 0;
    was_truncated = false;
    original_length = none;
  }

  -- `toErrorMessage`.
  abbrev to_error_message : Text → Text
  to_error_message message = if is_nil (trim message) then units "Unknown error" else message

  -- `executeDelegation` with the delegate that was chosen.
  execute_delegation :
      (Text
        → Call
        → List (AgentMessage Arguments Value)
        → W
        → Attempt (StepResult Arguments Value) × W)
      → Call
      → List (AgentMessage Arguments Value)
      → W
      → Outcome × W
  unfolding extract_delegation_task
  execute_delegation delegate call messages w =
      let (delegated, w') = delegate (extract_delegation_task call) call messages w in
      elim delegated [
        | throws message ↦ (create_error_result call 0 (to_error_message message), w')
        | returns step ↦ (delegated_result call step step.type, w')
      ]

  unfoldable pub is_tool_allowed : Call → W → Bool × W
  is_tool_allowed call w = elim env.request_permission [
    | none ↦ (true, w)
    | some request ↦ request call w
  ]

  -- One round of the first loop: the result, or none where the call is left to the pipeline.
  unfoldable pub settle_call : Call → List (AgentMessage Arguments Value) → W → Option Outcome × W
  unfolding execute_delegation is_tool_allowed
  settle_call call messages w = elim (chosen_delegate call env.delegation) [
    | some delegate ↦
        let (result, w') = execute_delegation delegate call messages w in (some result, w')
    | none ↦
        let (allowed, w') = is_tool_allowed call w in
        if allowed
        then (elim env.execute_many [
          | none ↦ (some (create_error_result call 0 (units "Tool pipeline is not configured")), w')
          | some execute ↦ (none, w')
        ])
        else (
          some (create_error_result call 0 (units "Permission denied for tool: " ++ call.name)),
          w',
        )
  ]

  unfoldable pub settle_calls :
      List Call → List (AgentMessage Arguments Value) → W → List (Option Outcome) × W
  unfolding settle_call
  settle_calls [] messages w = ([], w)
  settle_calls (call ∷ calls) messages w =
      let (slot, w') = settle_call call messages w in
      let (slots, w'') = settle_calls calls messages w' in (slot ∷ slots, w'')

  -- `executableCalls`: those whose place is empty.
  unfoldable pub executable_calls : List Call → List (Option Outcome) → List Call
  executable_calls (call ∷ calls) (none ∷ slots) = call ∷ executable_calls calls slots
  executable_calls (call ∷ calls) (some _ ∷ slots) = executable_calls calls slots
  executable_calls _ _ = []

  -- The pipeline's results go to the empty places in order; those beyond them are passed over.
  fill : List (Option Outcome) → List Outcome → List (Option Outcome)
  fill [] results = []
  fill (some result ∷ slots) results = some result ∷ fill slots results
  fill (none ∷ slots) [] = none ∷ fill slots []
  fill (none ∷ slots) (result ∷ results) = some result ∷ fill slots results

  abbrev or_fallback : Call → Option Outcome → Outcome
  or_fallback call slot = or_else slot (create_error_result call 0 (units "Tool execution failed"))

  -- The last loop.
  finish :
      List Call → List (Option Outcome) → Option DoomLoopGuard → List Outcome × Option DoomLoopGuard
  finish (call ∷ calls) (slot ∷ slots) guard =
      let result = or_fallback call slot in
      let (results, guard') = finish calls slots (record_guard_outcome guard result) in
      (result ∷ results, guard')
  finish _ _ guard = ([], guard)

  -- The call of the pipeline, where it has something to execute.
  abbrev run_pipeline : Option (List Call → W → List Outcome × W) → List Call → W → List Outcome × W
  run_pipeline none calls w = ([], w)
  run_pipeline (some execute) [] w = ([], w)
  run_pipeline (some execute) (call ∷ calls) w = execute (call ∷ calls) w

  unfoldable pub execute_tool_calls :
      List Call
      → List (AgentMessage Arguments Value)
      → Option DoomLoopGuard
      → W
      → List Outcome × Option DoomLoopGuard × W
  unfolding settle_calls executable_calls fill finish
  execute_tool_calls calls messages guard w =
      let (slots, w') = settle_calls calls messages w in
      let (piped, w'') = run_pipeline env.execute_many (executable_calls calls slots) w' in
      let (results, guard') = finish calls (fill slots piped) guard in (results, guard', w'')
