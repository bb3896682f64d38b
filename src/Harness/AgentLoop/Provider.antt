-- ===== src/Harness/AgentLoop/Provider.antt =====
-- `AgentLoop.runWithProvider`: one round of its loop, and the loop on fuel, one unit for each round. A
-- stream is the finite list of its pulls, each of which acts on the world and may throw; the
-- compaction of the context and the preparation of the request are given from outside.
pub mod Parts
pub mod Data
pub mod Stream
pub mod Grammar
mod Pieces
mod Reading
mod Rounds
pub mod Events
mod Tests
use reins_core.Prelude.{
  ℕ, zero, suc, Bool, true, false, not, ◌||◌, Option, none, some, List, [], ◌∷◌, ◌++◌, map, leb,
  if◌then◌else◌,
}
use reins_core.Prelude.Text.{Text, units, text_eq}
use reins_core.Harness.DoomLoopGuard
use reins_core.Harness.DoomLoopGuard.{DoomLoopGuard}
use reins_core.Prelude.{String}
use reins_core.Harness.Tools.{ToolCall, Output, ToolResult, Attempt, returns, throws}
use reins_core.Harness.AgentLoop.Parts.{
  TerminationReason, text_only_response, max_steps_reached, doom_loop_detected, aborted,
}
use reins_core.Harness.AgentLoop.Provider.Parts
use reins_core.Harness.AgentLoop.Provider.Parts.{
  ContentBlock, text_block, tool_use, tool_result, ProviderMessage, of_assistant, of_user,
  StreamEvent, Compaction, LoopEvent, Done, finalize_loop_content, serialize_tool_result,
}
use reins_core.Harness.AgentLoop.Provider.Data.{
  Environment, State, Streamed, StreamEnd, read, failed, rejected, Round, goes_on, stops, thrown,
  Outcome, ended, threw, out_of_fuel,
}
use reins_core.Harness.AgentLoop.Provider.Stream.{is_aborted, read_stream, nothing_read}
use reins_core.Tools.Executor

module _ {Arguments Value Given Usage W : Type 0} (env : Environment Arguments Value Given Usage W)
    (max_steps : ℕ) where
  abbrev Events : Type 0
  Events = List (LoopEvent Arguments Value Usage)

  abbrev Current : Type 0
  Current = State Arguments Value Given Usage W

  abbrev execution_signal : Option (W → Bool) → Option (W → Bool)
  execution_signal none = env.loop_signal
  execution_signal (some signal) = some signal

  abbrev pub executor_with : Option (W → Bool) → Executor.Environment Arguments Value W
  executor_with signal = record env.executor { signal = signal }

  -- The loop over the calls with a signal: the calls that were begun, and their results.
  execute_until :
      (W → Bool)
      → List (ToolCall Arguments)
      → W
      → List (ToolCall Arguments) × List (ToolResult Value) × W
  execute_until signal [] w = ([], [], w)
  execute_until signal (call ∷ calls) w =
      let run : List (ToolCall Arguments) × List (ToolResult Value) × W =
        let (result, w') = Executor.execute (executor_with (some signal)) call w in
        let (begun, results, w'') = execute_until signal calls w' in
        if signal w' then (call ∷ [], result ∷ [], w') else (call ∷ begun, result ∷ results, w'') in
      if signal w then ([], [], w) else run

  unfoldable pub execute_calls :
      Option (W → Bool)
      → List (ToolCall Arguments)
      → W
      → List (ToolCall Arguments) × List (ToolResult Value) × W
  unfolding execute_until
  execute_calls none calls w =
      let (results, w') = Executor.execute_many (executor_with none) calls w in (calls, results, w')
  execute_calls (some signal) calls w = execute_until signal calls w

  abbrev done_with :
      Option Usage
      → (finish_reason : Text) → TerminationReason
      → Bool
      → Current
      → LoopEvent Arguments Value Usage
  done_with usage finish_reason reason limit_reached s = Parts.done (record {
    usage = usage;
    finish_reason = finish_reason;
    termination_reason = reason;
    content = finalize_loop_content s.accumulated_blocks;
    limit_reached = limit_reached;
    steps_used = s.steps_used;
  })

  abbrev done_aborted : Option Usage → Current → LoopEvent Arguments Value Usage
  done_aborted usage s = done_with usage (units "aborted") aborted false s

  abbrev use_block : ToolCall Arguments → ContentBlock Arguments
  use_block call = tool_use call.id call.name call.arguments

  abbrev has_error : Option Text → Bool
  has_error (some (c ∷ cs)) = true
  has_error _ = false

  abbrev result_block : ToolResult Value → ContentBlock Arguments
  result_block result =
      tool_result result.call_id (serialize_tool_result env.stringify result)
        (has_error result.error)

  abbrev add_blocks : List (ContentBlock Arguments) → Current → Current
  add_blocks blocks s = record s { accumulated_blocks = s.accumulated_blocks ++ blocks }

  abbrev add_message : ProviderMessage Arguments Given → Current → Current
  add_message message s = record s { messages = s.messages ++ message ∷ [] }

  abbrev pub call_events : List (ToolCall Arguments) → List (ToolResult Value) → Events
  call_events begun results = map Parts.tool_call_start begun ++ map Parts.tool_call_end results

  -- From the execution of the calls to the end of a round.
  unfoldable pub use_tools :
      Events
      → Option Usage
      → List (ToolCall Arguments)
      → Current
      → Round Arguments Value Given Usage W
  unfolding execute_calls
  use_tools events usage calls s =
      let (begun, results, w) = execute_calls (execution_signal env.tool_signal) calls s.world in
      let blocks = map result_block results in
      let s' : Current =
        add_message (of_user blocks) (add_blocks blocks (record s { world = w })) in
      if is_aborted env w
      then stops (events ++ call_events begun results) (done_aborted usage s')
      else goes_on (events ++ call_events begun results) s'

  abbrev escalates : Option DoomLoopGuard → Bool
  escalates none = false
  escalates (some guard) = DoomLoopGuard.should_escalate guard

  abbrev tracked : Option DoomLoopGuard → List (ToolCall Arguments) → Option DoomLoopGuard
  tracked none calls = none
  tracked (some guard) calls = some (DoomLoopGuard.track env.to_signature guard calls)

  -- From the limit on steps to the execution of the calls.
  abbrev pub count_step :
      Events
      → Option Usage
      → List (ToolCall Arguments)
      → Current
      → Round Arguments Value Given Usage W
  count_step events usage calls s =
      let s' : Current = record s {
        steps_used = suc s.steps_used;
        guard = tracked s.guard calls;
      } in
      if leb max_steps s.steps_used
      then stops events (done_with usage (units "step_limit") max_steps_reached true s)
      else if escalates s'.guard
      then stops events (done_with usage (units "doom_loop") doom_loop_detected true s')
      else if is_aborted env s.world
      then stops events (done_aborted usage s')
      else use_tools events usage calls s'

  abbrev with_text : Text → Current → Current
  with_text [] s = s
  with_text (c ∷ cs) s = add_blocks (text_block (c ∷ cs) ∷ []) s

  abbrev pub after_calls :
      Events
      → Streamed Arguments Usage
      → List (ToolCall Arguments)
      → Current
      → Round Arguments Value Given Usage W
  after_calls events streamed [] s =
      stops events (done_with streamed.usage streamed.finish_reason text_only_response false s)
  after_calls events streamed (call ∷ calls) s =
      let blocks = map use_block (call ∷ calls) in
      if text_eq streamed.finish_reason (units "tool_use")
      then count_step events streamed.usage (call ∷ calls)
          (add_message (of_assistant blocks) (add_blocks blocks s))
      else stops events (done_with streamed.usage streamed.finish_reason text_only_response false s)

  -- From the end of the stream.
  abbrev pub after_stream :
      Events → StreamEnd Arguments Usage → Current → Round Arguments Value Given Usage W
  after_stream events rejected s = thrown events
  after_stream events (failed message) s = stops events (Parts.error message)
  after_stream events (read streamed) s =
      if is_aborted env s.world
      then stops events (done_aborted streamed.usage s)
      else after_calls events streamed streamed.tool_calls (with_text streamed.text_output s)

  abbrev compaction_events : Option Compaction → Events
  compaction_events none = []
  compaction_events (some event) = Parts.compaction event ∷ []

  unfoldable pub round : Current → Round Arguments Value Given Usage W
  unfolding read_stream use_tools
  round s =
      let (compacted, messages, w) = env.compact s.messages s.world in
      let (pulls, w') = env.stream messages w in
      let (events, end, w'') = read_stream env pulls (nothing_read env) w' in
      if is_aborted env s.world
      then stops [] (done_aborted none s)
      else after_stream (compaction_events compacted ++ events) end
          (record s { messages = messages; world = w'' })

  abbrev before : Events → Outcome Arguments Value Usage → Outcome Arguments Value Usage
  before events (ended more last) = ended (events ++ more) last
  before events (threw more) = threw (events ++ more)
  before events out_of_fuel = out_of_fuel

  unfoldable pub loop : (fuel : ℕ) → Current → Outcome Arguments Value Usage
  unfolding round
  loop zero s = out_of_fuel
  loop (suc fuel) s = elim (round s) [
    | goes_on events s' ↦ before events (loop fuel s')
    | stops events last ↦ ended events last
    | thrown events ↦ threw events
  ]

  abbrev reset_guard : Option DoomLoopGuard → Option DoomLoopGuard
  reset_guard none = none
  reset_guard (some guard) = some (DoomLoopGuard.reset guard)

  abbrev pub initial : List (ProviderMessage Arguments Given) → Option DoomLoopGuard → W → Current
  initial messages guard w = record {
    messages = messages;
    accumulated_blocks = [];
    steps_used = 0;
    guard = reset_guard guard;
    world = w;
  }

  -- One round more than steps are allowed is enough.
  unfoldable pub run_with_provider :
      List (ProviderMessage Arguments Given)
      → Option DoomLoopGuard
      → W
      → Outcome Arguments Value Usage
  unfolding loop
  run_with_provider messages guard w = loop (suc max_steps) (initial messages guard w)
