-- ===== src/Harness/Tools.antt =====
-- The data of tool calls that the parts of src/harness share: `ToolCall` of src/types/tool.ts and
-- `ToolPipelineResult` of src/harness/tool-pipeline.ts. The arguments of a call and the outputs that
-- are no texts are types of their own, given from outside.
use reins_core.Prelude.{ℕ, ◌≡◌, refl, ◌⊎◌, inl, inr, Bool, false, Option, none}
use reins_core.Prelude.Text.{Text}

pub record ToolCall (Arguments : Type 0) : Type 0 where
  pub id : Text
  pub name : Text
  pub arguments : Arguments

pub data Status : Type 0 where
  success error truncated : Status

pub data Output (Value : Type 0) : Type 0 where
  text : Text → Output Value
  null : Output Value
  value : Value → Output Value

pub record ToolPipelineResult (Value : Type 0) : Type 0 where
  pub status : Status
  pub output : Output Value
  pub call_id : Text
  pub name : Text
  pub duration_ms : ℕ
  pub was_truncated : Bool
  pub original_length : Option ℕ

-- `createErrorResult`, which the loop and the pipeline have alike.
abbrev pub create_error_result :
    {Arguments Value : Type 0}
    → ToolCall Arguments
    → (duration_ms : ℕ) → Text
    → ToolPipelineResult Value
create_error_result tool_call duration_ms message = record {
  status = error;
  output = text message;
  call_id = tool_call.id;
  name = tool_call.name;
  duration_ms = duration_ms;
  was_truncated = false;
  original_length = none;
}

-- `ToolResult` of src/types/tool.ts; of an error only the message counts.
pub record ToolResult (Value : Type 0) : Type 0 where
  pub call_id : Text
  pub name : Text
  pub result : Output Value
  pub error : Option Text

-- What a call that may throw comes to; of what it throws only the message counts.
pub data Attempt {ℓ} (A : Type ℓ) : Type ℓ where
  returns : A → Attempt A
  throws : (message : Text) → Attempt A

pub Attempt-cases {ℓ} :
    {A : Type ℓ} (a : Attempt A)
    → ((v : A) × (a ≡ returns v)) ⊎ ((message : Text) × (a ≡ throws message))
Attempt-cases (returns v) = inl (v, refl)
Attempt-cases (throws message) = inr (message, refl)
