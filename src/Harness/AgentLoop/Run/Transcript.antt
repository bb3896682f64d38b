-- ===== src/Harness/AgentLoop/Run/Transcript.antt =====
-- What a run adds to the messages, read as a conversation in rounds.
use reins_core.Prelude.{
  append_assoc, ℕ, zero, suc, ◌+◌, ◌≤◌, ◌<◌, ◌≡◌, ap, ◌∙◌, subst, false, Option, List, [], ◌∷◌,
  ◌++◌, arith,
}
use reins_core.Prelude.Text.{Text}
use reins_core.Harness.DoomLoopGuard.{DoomLoopGuard}
use reins_core.Harness.Tools.{ToolCall, ToolPipelineResult, throws}
use reins_core.Harness.AgentLoop.Parts.{AgentMessage, Environment}
use reins_core.Harness.AgentLoop.ToolCalls.Results.{Answers, PipelineAnswers}
use reins_core.Harness.AgentLoop.Run.{
  State, Result, Round, goes_on, stops, thrown, Outcome, returned, threw, out_of_fuel, assistant,
  tool_message, round, loop, initial, run,
}
use reins_core.Harness.AgentLoop.Run.Grammar.{Tail, again, Ends}
use reins_core.Harness.AgentLoop.Run.Shapes.{Shape, shape_on, shape_end, shape_thrown, round-Shape}

module _ {Arguments Value W : Type 0} (env : Environment Arguments Value W) (max_steps : ℕ) where
  -- How a loop ends, with enough fuel.
  abbrev pub Finishes : State Arguments Value W → Outcome Arguments Value W → Type 0
  Finishes s (returned result) = Ends env max_steps s result
  Finishes s threw =
      (messages : List (AgentMessage Arguments Value)) × (w : W) × (message : Text) × ((env.step_fn
          messages false w).0
        ≡ throws message)
  Finishes s out_of_fuel = ⊥

  Ends-again :
      (s next : State Arguments Value W) (content : Text) (call : ToolCall Arguments)
      (calls : List (ToolCall Arguments)) (results : List (ToolPipelineResult Value))
      (result : Result Arguments Value W)
      → s.steps_used < max_steps
      → next.steps_used ≡ suc s.steps_used
      → next.messages
        ≡ (s.messages ++ assistant env max_steps content (call ∷ calls) ∷ [])
          ++ tool_message env max_steps results ∷ []
      → Answers (call ∷ calls) results
      → Ends env max_steps next result
      → Ends env max_steps s result
  Ends-again s next content call calls results result room steps messages answers
        (tail, same, ends, limit) =
      let asked = assistant env max_steps content (call ∷ calls) in
      let told = tool_message env max_steps results in
      let all : result.state.messages ≡ s.messages ++ asked ∷ told ∷ tail =
        same
        ∙ ap (λ m. m ++ tail) messages
        ∙ append_assoc (s.messages ++ asked ∷ []) (told ∷ []) tail
        ∙ append_assoc s.messages (asked ∷ []) (told ∷ tail) in
      (
        asked ∷ told ∷ tail,
        all,
        again s.steps_used content call calls results tail result.reason result.state.steps_used
            room answers
            (subst (λ n. Tail env max_steps n tail result.reason result.state.steps_used) steps
              ends),
        limit,
      )

  Finishes-again :
      (s next : State Arguments Value W) (content : Text) (call : ToolCall Arguments)
      (calls : List (ToolCall Arguments)) (results : List (ToolPipelineResult Value))
      → s.steps_used < max_steps
      → next.steps_used ≡ suc s.steps_used
      → next.messages
        ≡ (s.messages ++ assistant env max_steps content (call ∷ calls) ∷ [])
          ++ tool_message env max_steps results ∷ []
      → Answers (call ∷ calls) results
      → (outcome : Outcome Arguments Value W) → Finishes next outcome
      → Finishes s outcome
  Finishes-again s next content call calls results room steps messages answers (returned result)
        ends =
      Ends-again s next content call calls results result room steps messages answers ends
  Finishes-again s next content call calls results room steps messages answers threw h = h
  Finishes-again s next content call calls results room steps messages answers out_of_fuel h = h

  continue-Finishes :
      (fuel : ℕ) (s : State Arguments Value W) (r : Round Arguments Value W)
      → PipelineAnswers env
      → Shape env max_steps s r
      → max_steps < s.steps_used + suc fuel
      → ((next : State Arguments Value W)
          → next.steps_used ≤ max_steps
          → max_steps < next.steps_used + fuel
          → Finishes next (loop env max_steps fuel next))
      → Finishes s (elim r [
        | goes_on next ↦ loop env max_steps fuel next
        | stops result ↦ returned result
        | thrown ↦ threw
      ])
  continue-Finishes fuel s _ law
        (shape_on content call calls results next room steps messages answers) enough rest =
      Finishes-again s next content call calls results room steps messages (answers law)
        (loop env max_steps fuel next) (rest next (omega (arith, steps)) (omega (arith, steps)))
  continue-Finishes fuel s _ law (shape_end result ends) enough rest = ends
  continue-Finishes fuel s _ law (shape_thrown messages w message e) enough rest =
      (messages, w, message, e)

  loop-Finishes :
      (fuel : ℕ) (s : State Arguments Value W)
      → PipelineAnswers env
      → s.steps_used ≤ max_steps
      → max_steps < s.steps_used + fuel
      → Finishes s (loop env max_steps fuel s)
  unfolding loop
  loop-Finishes zero s law within enough = absurd (omega arith)
  loop-Finishes (suc fuel) s law within enough =
      continue-Finishes fuel s (round env max_steps s) law (round-Shape env max_steps s) enough
        (λ next within' enough'. loop-Finishes fuel next law within' enough')

  -- If the pipeline answers the calls that it is given, a run ends, whatever the step function, the tools
  -- and the guard do. Where it returns, the new messages are rounds of calls, each with the
  -- results that answer them, and then an end that fits the reason: an abort adds nothing, a text or an
  -- error one text, and a limit the calls that were not executed and a last text; the steps are the
  -- rounds, and for a doom loop one more, and the limit is reported just for the reasons that are one.
  -- A run throws only if the step function does.
  pub run-Finishes :
      (messages : List (AgentMessage Arguments Value)) (guard : Option DoomLoopGuard) (w : W)
      → PipelineAnswers env
      → Finishes (initial env max_steps messages guard w) (run env max_steps messages guard w)
  unfolding run
  run-Finishes messages guard w law =
      loop-Finishes (suc max_steps) (initial env max_steps messages guard w) law (omega arith)
        (omega arith)
