-- ===== src/Harness/AgentLoop/Parts.antt =====
-- The messages of the loop, and what the loop is given.
use reins_core.Prelude.{ℕ, Bool, Option, List, String}
use reins_core.Prelude.Text.{Text}
use reins_core.Prelude.Numbers.{Number, not_finite, negative, finite}
use reins_core.Prelude.{none, some}
use reins_core.Harness.Tools.{ToolCall, ToolPipelineResult, Attempt}

pub data Role : Type 0 where
  user assistant system tool : Role

pub data StepType : Type 0 where
  text tool_calls error : StepType

pub data TerminationReason : Type 0 where
  text_only_response max_steps_reached doom_loop_detected aborted failed : TerminationReason

module _ (Arguments Value : Type 0) where
  -- Where the source leaves the calls or the results out, the list is empty.
  pub record AgentMessage : Type 0 where
    pub role : Role
    pub content : Text
    pub tool_calls : List (ToolCall Arguments)
    pub tool_results : List (ToolPipelineResult Value)

  -- The error is its message.
  pub record StepResult : Type 0 where
    pub type : StepType
    pub content : Option Text
    pub tool_calls : Option (List (ToolCall Arguments))
    pub error : Option Text

module _ (Arguments Value W : Type 0) where
  pub record DelegationContract : Type 0 where
    pub can_delegate : Bool
    pub delegate : Option (
        Text
        → ToolCall Arguments
        → List (AgentMessage Arguments Value)
        → W
        → Attempt (StepResult Arguments Value) × W)

  -- `step_fn messages tools_disabled`; `task` is `arguments["task"]` where that is a text; the checker
  -- and the pipeline may be missing; `serialize` is `JSON.stringify` of the results.
  pub record Environment : Type 0 where
    pub step_fn :
        List (AgentMessage Arguments Value) → Bool → W → Attempt (StepResult Arguments Value) × W
    pub is_aborted : W → Bool
    pub request_permission : Option (ToolCall Arguments → W → Bool × W)
    pub execute_many : Option (List (ToolCall Arguments) → W → List (ToolPipelineResult Value) × W)
    pub delegation : Option DelegationContract
    pub task : Arguments → Option Text
    pub to_signature : ToolCall Arguments → String
    pub serialize : List (ToolPipelineResult Value) → Text
    pub emit_error : Text → W → W
    pub emit_aborted : W → W

-- `resolveMaxSteps`.
unfoldable pub resolve_max_steps : Option Number → ℕ
resolve_max_steps none = 25
resolve_max_steps (some not_finite) = 25
resolve_max_steps (some negative) = 0
resolve_max_steps (some (finite floor)) = floor
