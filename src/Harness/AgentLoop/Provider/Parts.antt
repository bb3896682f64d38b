-- ===== src/Harness/AgentLoop/Provider/Parts.antt =====
-- The events and blocks of `AgentLoop.runWithProvider`. The identities of new messages, which are random,
-- are left out.
use reins_core.Prelude.{ℕ, Bool, true, false, Option, some, List, [], ◌∷◌, ◌++◌, any, if◌then◌else◌}
use reins_core.Prelude.Text.{Text}
use reins_core.Harness.Tools.{ToolCall, Output, text, null, value, ToolResult}
use reins_core.Harness.AgentLoop.Parts.{TerminationReason}

pub data ContentBlock (Arguments : Type 0) : Type 0 where
  text_block : Text → ContentBlock Arguments
  tool_use : (id name : Text) → (input : Arguments) → ContentBlock Arguments
  tool_result : (tool_use_id content : Text) → (is_error : Bool) → ContentBlock Arguments

-- A message that the caller gave, or one that the loop made.
pub data ProviderMessage (Arguments Given : Type 0) : Type 0 where
  given : Given → ProviderMessage Arguments Given
  of_assistant of_user : List (ContentBlock Arguments) → ProviderMessage Arguments Given

-- `StreamEvent` of src/types/streaming.ts; those that the loop does not look at are `ignored`.
pub data StreamEvent (Arguments Usage : Type 0) : Type 0 where
  token thinking : (content : Text) → StreamEvent Arguments Usage
  tool_call_start : ToolCall Arguments → StreamEvent Arguments Usage
  error : (message : Text) → StreamEvent Arguments Usage
  done : Usage → (finish_reason : Text) → StreamEvent Arguments Usage
  ignored : StreamEvent Arguments Usage

pub record Compaction : Type 0 where
  pub summary : Text
  pub before_token_estimate : ℕ
  pub after_token_estimate : ℕ

-- `finalizeLoopContent`: a text, or the blocks.
pub data FinalContent (Arguments : Type 0) : Type 0 where
  all_text : Text → FinalContent Arguments
  all_blocks : List (ContentBlock Arguments) → FinalContent Arguments

pub record Done (Arguments Usage : Type 0) : Type 0 where
  pub usage : Option Usage
  pub finish_reason : Text
  pub termination_reason : TerminationReason
  pub content : FinalContent Arguments
  pub limit_reached : Bool
  pub steps_used : ℕ

-- `LoopEvent`
pub data LoopEvent (Arguments Value Usage : Type 0) : Type 0 where
  token thinking : (content : Text) → LoopEvent Arguments Value Usage
  tool_call_start : ToolCall Arguments → LoopEvent Arguments Value Usage
  tool_call_end : ToolResult Value → LoopEvent Arguments Value Usage
  compaction : Compaction → LoopEvent Arguments Value Usage
  done : Done Arguments Usage → LoopEvent Arguments Value Usage
  error : (message : Text) → LoopEvent Arguments Value Usage

module _ {Arguments : Type 0} where
  abbrev is_no_text : ContentBlock Arguments → Bool
  is_no_text (text_block t) = false
  is_no_text _ = true

  abbrev joined : List (ContentBlock Arguments) → Text
  joined [] = []
  joined (text_block t ∷ blocks) = t ++ joined blocks
  joined (block ∷ blocks) = joined blocks

  unfoldable pub finalize_loop_content : List (ContentBlock Arguments) → FinalContent Arguments
  finalize_loop_content blocks =
      if any is_no_text blocks then all_blocks blocks else all_text (joined blocks)

module _ {Value : Type 0} (stringify : Output Value → Text) where
  abbrev serialize_output : Output Value → Text
  serialize_output (text t) = t
  serialize_output null = stringify null
  serialize_output (value v) = stringify (value v)

  abbrev serialize_by : Option Text → Output Value → Text
  serialize_by (some (c ∷ cs)) output = c ∷ cs
  serialize_by _ output = serialize_output output

  -- `serializeToolResult`
  abbrev pub serialize_tool_result : ToolResult Value → Text
  serialize_tool_result result = serialize_by result.error result.result
