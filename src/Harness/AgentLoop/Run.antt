-- ===== src/Harness/AgentLoop/Run.antt =====
-- `AgentLoop.run`: one round of its loop, and the loop on fuel, one unit for each round.
pub mod Grammar
mod Shapes
pub mod Transcript
mod Tests
use reins_core.Prelude.{
  ℕ, zero, suc, ◌+◌, Bool, true, false, ◌||◌, Option, none, some, List, [], ◌∷◌, ◌++◌, leb,
  if◌then◌else◌, or_else,
}
use reins_core.Prelude.Text.{Text, units, trim}
use reins_core.Harness.DoomLoopGuard
use reins_core.Harness.DoomLoopGuard.{DoomLoopGuard}
use reins_core.Harness.Tools.{ToolCall, ToolPipelineResult, Attempt, returns, throws}
use reins_core.Harness.AgentLoop.Parts
use reins_core.Harness.AgentLoop.Parts.{
  AgentMessage, StepType, StepResult, Environment, TerminationReason, text_only_response,
  max_steps_reached, doom_loop_detected, aborted, failed,
}
use reins_core.Harness.AgentLoop.ToolCalls.{execute_tool_calls}

abbrev is_nil {ℓ} : {A : Type ℓ} → List A → Bool
is_nil [] = true
is_nil (x ∷ xs) = false

module _ (Arguments Value W : Type 0) where
  pub record State : Type 0 where
    pub messages : List (AgentMessage Arguments Value)
    pub steps_used : ℕ
    pub guard : Option DoomLoopGuard
    pub world : W

  -- `aborted` of the result is whether its reason says so.
  pub record Result : Type 0 where
    pub state : State
    pub limit_reached : Bool
    pub reason : TerminationReason

  -- What a round leads to: the next one, the end, or an error that the step function threw.
  pub data Round : Type 0 where
    goes_on : State → Round
    stops : Result → Round
    thrown : Round

  pub data Outcome : Type 0 where
    returned : Result → Outcome
    threw : Outcome
    out_of_fuel : Outcome

module _ {Arguments Value W : Type 0} (env : Environment Arguments Value W) (max_steps : ℕ) where
  abbrev pub assistant : Text → List (ToolCall Arguments) → AgentMessage Arguments Value
  assistant content calls = record {
    role = Parts.assistant;
    content = content;
    tool_calls = calls;
    tool_results = [];
  }

  abbrev pub tool_message : List (ToolPipelineResult Value) → AgentMessage Arguments Value
  tool_message results = record {
    role = Parts.tool;
    content = env.serialize results;
    tool_calls = [];
    tool_results = results;
  }

  abbrev push : AgentMessage Arguments Value → State Arguments Value W → State Arguments Value W
  push message s = record s { messages = s.messages ++ message ∷ [] }

  abbrev end : TerminationReason → Bool → State Arguments Value W → Round Arguments Value W
  end reason limit_reached s =
      stops (record { state = s; limit_reached = limit_reached; reason = reason })

  abbrev step_limit_message : Text
  step_limit_message =
      units "Step limit reached. Tools are now disabled. Please provide a final response."

  abbrev forced_text : StepType → StepResult Arguments Value → W → Text × W
  forced_text Parts.text step w = (
    if is_nil (trim (or_else step.content [])) then step_limit_message else or_else step.content [],
    w,
  )
  forced_text Parts.error step w = (
    step_limit_message,
    env.emit_error (or_else step.error (units "Forced text completion failed")) w,
  )
  forced_text Parts.tool_calls step w = (step_limit_message, w)

  abbrev to_error_message : Text → Text
  to_error_message message = if is_nil (trim message) then units "Unknown error" else message

  unfoldable pub force_text_only_completion : State Arguments Value W → Text × W
  force_text_only_completion s =
      if env.is_aborted s.world
      then (units "Agent loop aborted", s.world)
      else (let (result, w) = env.step_fn s.messages true s.world in
          elim result [
            | throws message ↦ (step_limit_message, env.emit_error (to_error_message message) w)
            | returns step ↦ forced_text step.type step w
          ])

  -- The two ends that ask for a last text.
  end_forced : TerminationReason → State Arguments Value W → Round Arguments Value W
  unfolding force_text_only_completion
  end_forced reason s =
      let (content, w) = force_text_only_completion s in
      end reason true (push (assistant content []) (record s { world = w }))

  abbrev escalates : Option DoomLoopGuard → Bool
  escalates none = false
  escalates (some guard) = DoomLoopGuard.should_escalate guard

  abbrev tracked : Option DoomLoopGuard → List (ToolCall Arguments) → Option DoomLoopGuard
  tracked none calls = none
  tracked (some guard) calls = some (DoomLoopGuard.track env.to_signature guard calls)

  -- The part of a round that executes tool calls; the limit on steps is not reached.
  use_tools : List (ToolCall Arguments) → State Arguments Value W → Round Arguments Value W
  unfolding end_forced
  use_tools calls s =
      let counted : State Arguments Value W = record s {
        steps_used = suc s.steps_used;
        guard = tracked s.guard calls;
      } in
      if escalates (tracked s.guard calls)
      then end_forced doom_loop_detected counted
      else (let (results, guard, w) =
            execute_tool_calls env calls counted.messages counted.guard counted.world in
          goes_on (push (tool_message results) (record counted { guard = guard; world = w })))

  abbrev text_end : StepType → Text → State Arguments Value W → Round Arguments Value W
  text_end Parts.text content s = end text_only_response false (push (assistant content []) s)
  text_end _ [] s = end text_only_response false s
  text_end _ (c ∷ cs) s = end text_only_response false (push (assistant (c ∷ cs) []) s)

  abbrev error_end : StepResult Arguments Value → State Arguments Value W → Round Arguments Value W
  error_end step s =
      let w = env.emit_error (or_else step.error (units "Step function returned error")) s.world in
      let content = or_else step.error (or_else step.content (units "Step function failed")) in
      end failed false (push (assistant content []) (record s { world = w }))

  abbrev call_end :
      List (ToolCall Arguments) → Text → State Arguments Value W → Round Arguments Value W
  call_end [] content s = text_end Parts.tool_calls content s
  call_end (call ∷ calls) content s =
      let asked = push (assistant content (call ∷ calls)) s in
      if leb max_steps s.steps_used
      then end_forced max_steps_reached asked
      else use_tools (call ∷ calls) asked

  -- The part of a round after the step function's answer, by the answer's type.
  after_step :
      StepType → StepResult Arguments Value → State Arguments Value W → Round Arguments Value W
  unfolding end_forced use_tools
  after_step Parts.error step s = error_end step s
  after_step Parts.text step s = text_end Parts.text (or_else step.content []) s
  after_step Parts.tool_calls step s =
      call_end (or_else step.tool_calls []) (or_else step.content []) s

  abort_end : State Arguments Value W → Round Arguments Value W
  abort_end s = end aborted false (record s { world = env.emit_aborted s.world })

  unfoldable pub round : State Arguments Value W → Round Arguments Value W
  unfolding after_step abort_end
  round s =
      if env.is_aborted s.world
      then abort_end s
      else (let (result, w) = env.step_fn s.messages false s.world in
          let s' : State Arguments Value W = record s { world = w } in
          elim result [
            | throws message ↦ thrown
            | returns step ↦ if env.is_aborted w then abort_end s' else after_step step.type step s'
          ])

  unfoldable pub loop : (fuel : ℕ) → State Arguments Value W → Outcome Arguments Value W
  unfolding round
  loop zero s = out_of_fuel
  loop (suc fuel) s = elim (round s) [
    | goes_on s' ↦ loop fuel s'
    | stops result ↦ returned result
    | thrown ↦ threw
  ]

  abbrev reset_guard : Option DoomLoopGuard → Option DoomLoopGuard
  reset_guard none = none
  reset_guard (some guard) = some (DoomLoopGuard.reset guard)

  abbrev pub initial :
      List (AgentMessage Arguments Value) → Option DoomLoopGuard → W → State Arguments Value W
  initial messages guard w = record {
    messages = messages;
    steps_used = 0;
    guard = reset_guard guard;
    world = w;
  }

  -- One round more than steps are allowed is enough.
  unfoldable pub run :
      List (AgentMessage Arguments Value) → Option DoomLoopGuard → W → Outcome Arguments Value W
  unfolding loop
  run messages guard w = loop (suc max_steps) (initial messages guard w)
