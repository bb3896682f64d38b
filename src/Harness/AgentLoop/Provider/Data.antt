-- ===== src/Harness/AgentLoop/Provider/Data.antt =====
-- The environment, the state and the outcomes of `AgentLoop.runWithProvider`. A stream is the finite
-- list of its pulls, each of which acts on the world and may throw.
use reins_core.Prelude.{ℕ, Bool, Option, List, String}
use reins_core.Prelude.Text.{Text}
use reins_core.Harness.DoomLoopGuard.{DoomLoopGuard}
use reins_core.Harness.Tools.{ToolCall, Output, Attempt}
use reins_core.Harness.AgentLoop.Provider.Parts.{
  ContentBlock, ProviderMessage, StreamEvent, Compaction, LoopEvent,
}
use reins_core.Tools.Executor

module _ (Arguments Value Given Usage W : Type 0) where
  -- `stream` is the call of the provider with its request; `tool_signal` is that of the tool context.
  pub record Environment : Type 0 where
    pub compact :
        List (ProviderMessage Arguments Given)
        → W
        → Option Compaction × List (ProviderMessage Arguments Given) × W
    pub stream :
        List (ProviderMessage Arguments Given)
        → W
        → List (W → Attempt (StreamEvent Arguments Usage) × W) × W
    pub loop_signal : Option (W → Bool)
    pub tool_signal : Option (W → Bool)
    pub executor : Executor.Environment Arguments Value W
    pub to_signature : ToolCall Arguments → String
    pub stringify : Output Value → Text

  pub record State : Type 0 where
    pub messages : List (ProviderMessage Arguments Given)
    pub accumulated_blocks : List (ContentBlock Arguments)
    pub steps_used : ℕ
    pub guard : Option DoomLoopGuard
    pub world : W

-- What was read from a stream.
pub record Streamed (Arguments Usage : Type 0) : Type 0 where
  pub tool_calls : List (ToolCall Arguments)
  pub text_output : Text
  pub finish_reason : Text
  pub usage : Option Usage

-- What an event of a stream does to the loop that reads it.
pub data Reading (Arguments Value Usage : Type 0) : Type 0 where
  reads_on :
      List (LoopEvent Arguments Value Usage)
      → Streamed Arguments Usage
      → Reading Arguments Value Usage
  breaks rejects : Reading Arguments Value Usage
  fails : (message : Text) → Reading Arguments Value Usage

pub data StreamEnd (Arguments Usage : Type 0) : Type 0 where
  read : Streamed Arguments Usage → StreamEnd Arguments Usage
  failed : (message : Text) → StreamEnd Arguments Usage
  rejected : StreamEnd Arguments Usage

-- A round with the events that it yields; a round that stops has a last one.
pub data Round (Arguments Value Given Usage W : Type 0) : Type 0 where
  goes_on :
      List (LoopEvent Arguments Value Usage)
      → State Arguments Value Given Usage W
      → Round Arguments Value Given Usage W
  stops :
      List (LoopEvent Arguments Value Usage)
      → LoopEvent Arguments Value Usage
      → Round Arguments Value Given Usage W
  thrown : List (LoopEvent Arguments Value Usage) → Round Arguments Value Given Usage W

-- The events of a run before the last one, and the last one, if the run does not throw.
pub data Outcome (Arguments Value Usage : Type 0) : Type 0 where
  ended :
      List (LoopEvent Arguments Value Usage)
      → LoopEvent Arguments Value Usage
      → Outcome Arguments Value Usage
  threw : List (LoopEvent Arguments Value Usage) → Outcome Arguments Value Usage
  out_of_fuel : Outcome Arguments Value Usage
