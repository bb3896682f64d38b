-- ===== src/Harness/AgentLoop/Run/Shapes.antt =====
-- What a round of a run makes of its state.
use reins_core.Prelude.{
  append_assoc, append_nil, ℕ, suc, ◌<◌, ◌≡◌, refl, sym, inl, inr, false, List, [], ◌∷◌, ◌++◌, leb,
  arith, Bool-cases, or_else,
}
use reins_core.Prelude.Text.{Text}
use reins_core.Harness.Tools.{ToolCall, ToolPipelineResult, throws, Attempt-cases}
use reins_core.Harness.AgentLoop.Parts
use reins_core.Harness.AgentLoop.Parts.{
  AgentMessage, StepType, StepResult, Environment, TerminationReason, text_only_response,
  max_steps_reached, doom_loop_detected, aborted, failed,
}
use reins_core.Harness.AgentLoop.ToolCalls.{execute_tool_calls}
use reins_core.Harness.AgentLoop.ToolCalls.Results.{
  Answers, PipelineAnswers, execute_tool_calls-Answers,
}
use reins_core.Harness.AgentLoop.Run.{
  State, Result, Round, goes_on, stops, thrown, assistant, tool_message, push,
  force_text_only_completion, end_forced, escalates, tracked, use_tools, text_end, call_end,
  after_step, abort_end, round,
}
use reins_core.Harness.AgentLoop.Run.Grammar.{
  aborts, says_nothing, says, fails, is_limited, is_stuck, Ends,
}

module _ {Arguments Value W : Type 0} (env : Environment Arguments Value W) (max_steps : ℕ) where
  -- What a round makes of a state.
  pub data Shape (s : State Arguments Value W) : Round Arguments Value W → Type 0 where
    shape_on :
        (content : Text) (call : ToolCall Arguments) (calls : List (ToolCall Arguments))
        (results : List (ToolPipelineResult Value)) (next : State Arguments Value W)
        → s.steps_used < max_steps
        → next.steps_used ≡ suc s.steps_used
        → next.messages
          ≡ (s.messages ++ assistant env max_steps content (call ∷ calls) ∷ [])
            ++ tool_message env max_steps results ∷ []
        → (PipelineAnswers env → Answers (call ∷ calls) results)
        → Shape s (goes_on next)
    shape_end :
        (result : Result Arguments Value W) → Ends env max_steps s result → Shape s (stops result)
    shape_thrown :
        (messages : List (AgentMessage Arguments Value)) (w : W) (message : Text)
        → (env.step_fn messages false w).0 ≡ throws message
        → Shape s thrown

  text_end-Shape :
      (type : StepType) (content : Text) (s : State Arguments Value W)
      → Shape s (text_end env max_steps type content s)
  text_end-Shape Parts.text content s = shape_end _ (_, refl, says s.steps_used content, refl)
  text_end-Shape Parts.tool_calls [] s =
      shape_end _ ([], sym (append_nil s.messages), says_nothing s.steps_used, refl)
  text_end-Shape Parts.tool_calls (c ∷ cs) s =
      shape_end _ (_, refl, says s.steps_used (c ∷ cs), refl)
  text_end-Shape Parts.error [] s =
      shape_end _ ([], sym (append_nil s.messages), says_nothing s.steps_used, refl)
  text_end-Shape Parts.error (c ∷ cs) s = shape_end _ (_, refl, says s.steps_used (c ∷ cs), refl)

  -- The text that an end by a limit asks for.
  abbrev last_text : State Arguments Value W → Text
  last_text s = (force_text_only_completion env max_steps s).0

  use_tools-Shape :
      (call : ToolCall Arguments) (calls : List (ToolCall Arguments)) (content : Text)
      (s : State Arguments Value W)
      → s.steps_used < max_steps
      → Shape s (
          use_tools env max_steps
            (call ∷ calls)
            (push env max_steps (assistant env max_steps content (call ∷ calls)) s))
  unfolding use_tools end_forced
  use_tools-Shape call calls content s room =
      let asked = push env max_steps (assistant env max_steps content (call ∷ calls)) s in
      let guard = tracked env max_steps asked.guard (call ∷ calls) in
      let counted : State Arguments Value W = record asked {
        steps_used = suc s.steps_used;
        guard = guard;
      } in
      elim (Bool-cases (escalates env max_steps guard)) [
        | inl stuck ↦ rw stuck (
            shape_end _ (
              _,
              append_assoc s.messages (assistant env max_steps content (call ∷ calls) ∷ [])
                  (assistant env max_steps (last_text counted) [] ∷ []),
              is_stuck s.steps_used content (last_text counted) call calls room,
              refl,
            ))
        | inr fine ↦ rw fine (
            shape_on content call calls
              (execute_tool_calls env (call ∷ calls) counted.messages guard counted.world).0 _ room
              refl refl
              (execute_tool_calls-Answers env (call ∷ calls) counted.messages guard counted.world))
      ]

  call_end-Shape :
      (calls : List (ToolCall Arguments)) (content : Text) (s : State Arguments Value W)
      → Shape s (call_end env max_steps calls content s)
  unfolding end_forced
  call_end-Shape [] content s = text_end-Shape Parts.tool_calls content s
  call_end-Shape (call ∷ calls) content s =
      let asked = push env max_steps (assistant env max_steps content (call ∷ calls)) s in
      elim (Bool-cases (leb max_steps s.steps_used)) [
        | inl full ↦ rw full (
            shape_end _ (
              _,
              append_assoc s.messages (assistant env max_steps content (call ∷ calls) ∷ [])
                  (assistant env max_steps (last_text asked) [] ∷ []),
              is_limited s.steps_used content (last_text asked) call calls (ground arith),
              refl,
            ))
        | inr room ↦ rw room (use_tools-Shape call calls content s (ground arith))
      ]

  after_step-Shape :
      (type : StepType) (step : StepResult Arguments Value) (s : State Arguments Value W)
      → Shape s (after_step env max_steps type step s)
  unfolding after_step
  after_step-Shape Parts.error step s = shape_end _ (_, refl, fails s.steps_used _, refl)
  after_step-Shape Parts.text step s = text_end-Shape Parts.text (or_else step.content []) s
  after_step-Shape Parts.tool_calls step s =
      call_end-Shape (or_else step.tool_calls []) (or_else step.content []) s

  -- A shape depends on the messages and the count of steps alone.
  abort_end-Shape : (s : State Arguments Value W) → Shape s (abort_end env max_steps s)
  unfolding abort_end
  abort_end-Shape s = shape_end _ ([], sym (append_nil s.messages), aborts s.steps_used, refl)

  Shape-world :
      (s : State Arguments Value W) (w : W) (r : Round Arguments Value W)
      → Shape (record s { world = w }) r
      → Shape s r
  Shape-world s w _ (shape_on content call calls results next room steps messages answers) =
      shape_on content call calls results next room steps messages answers
  Shape-world s w _ (shape_end result ends) = shape_end result ends
  Shape-world s w _ (shape_thrown messages v message e) = shape_thrown messages v message e

  pub round-Shape : (s : State Arguments Value W) → Shape s (round env max_steps s)
  unfolding round
  round-Shape s =
      let (result, w) = env.step_fn s.messages false s.world in
      let s' : State Arguments Value W = record s { world = w } in
      elim (Bool-cases (env.is_aborted s.world)) [
        | inl gone ↦ rw gone (abort_end-Shape s)
        | inr here ↦ rw here (elim (Attempt-cases result) [
          | inr (message, e) ↦ rw e (shape_thrown s.messages s.world message e)
          | inl (step, e) ↦ rw e (elim (Bool-cases (env.is_aborted w)) [
            | inl gone ↦ rw gone (Shape-world s w _ (abort_end-Shape s'))
            | inr still ↦ rw still (Shape-world s w _ (after_step-Shape step.type step s'))
          ])
        ])
      ]
