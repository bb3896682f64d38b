-- ===== src/Harness/AgentLoop/Provider/Stream.antt =====
-- How `AgentLoop.runWithProvider` reads a stream.
use reins_core.Prelude.{Bool, none, some, List, [], ◌∷◌, ◌++◌, if◌then◌else◌}
use reins_core.Prelude.Text.{units}
use reins_core.Harness.Tools.{Attempt, returns, throws}
use reins_core.Harness.AgentLoop.Provider.Parts
use reins_core.Harness.AgentLoop.Provider.Parts.{StreamEvent, LoopEvent}
use reins_core.Harness.AgentLoop.Provider.Data.{
  Environment, Streamed, Reading, reads_on, breaks, rejects, fails, StreamEnd, read, failed,
  rejected,
}
use reins_core.Tools.Executor

module _ {Arguments Value Given Usage W : Type 0}
    (env : Environment Arguments Value Given Usage W) where
  abbrev pub is_aborted : W → Bool
  is_aborted w = Executor.is_aborted env.executor env.loop_signal w

  abbrev pub read_event :
      StreamEvent Arguments Usage → Streamed Arguments Usage → Reading Arguments Value Usage
  read_event (Parts.token content) s =
      reads_on (Parts.token content ∷ []) (record s { text_output = s.text_output ++ content })
  read_event (Parts.thinking content) s = reads_on (Parts.thinking content ∷ []) s
  read_event (Parts.tool_call_start call) s =
      reads_on [] (record s { tool_calls = s.tool_calls ++ call ∷ [] })
  read_event (Parts.error message) s = fails message
  read_event (Parts.done usage finish_reason) s =
      reads_on [] (record s { finish_reason = finish_reason; usage = some usage })
  read_event Parts.ignored s = reads_on [] s

  abbrev pub read_pull :
      Attempt (StreamEvent Arguments Usage)
      → (is_aborted : Bool) → Streamed Arguments Usage
      → Reading Arguments Value Usage
  read_pull (throws message) gone s = rejects
  read_pull (returns event) gone s = if gone then breaks else read_event event s

  -- The loop over the stream.
  unfoldable pub read_stream :
      List (W → Attempt (StreamEvent Arguments Usage) × W)
      → Streamed Arguments Usage
      → W
      → List (LoopEvent Arguments Value Usage) × StreamEnd Arguments Usage × W
  read_stream [] s w = ([], read s, w)
  read_stream (pull ∷ pulls) s w =
      let (answer, w') = pull w in
      elim (read_pull answer (is_aborted w') s) [
        | reads_on events s' ↦
            let (more, end, w'') = read_stream pulls s' w' in (events ++ more, end, w'')
        | breaks ↦ ([], read s, w')
        | rejects ↦ ([], rejected, w')
        | fails message ↦ ([], failed message, w')
      ]

  abbrev pub nothing_read : Streamed Arguments Usage
  nothing_read = record {
    tool_calls = [];
    text_output = [];
    finish_reason = units "stop";
    usage = none;
  }
