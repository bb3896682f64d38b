-- ===== src/Harness/AgentLoop/Run/Grammar.antt =====
-- The messages that a run adds, read as a conversation in rounds.
use reins_core.Prelude.{ℕ, suc, ◌≤◌, ◌<◌, ◌≡◌, Bool, true, false, List, [], ◌∷◌, ◌++◌}
use reins_core.Prelude.Text.{Text}
use reins_core.Harness.Tools.{ToolCall, ToolPipelineResult}
use reins_core.Harness.AgentLoop.Parts.{
  AgentMessage, Environment, TerminationReason, text_only_response, max_steps_reached,
  doom_loop_detected, aborted, failed,
}
use reins_core.Harness.AgentLoop.ToolCalls.Results.{Answers}
use reins_core.Harness.AgentLoop.Run.{State, Result, assistant, tool_message}

abbrev pub reaches_limit : TerminationReason → Bool
reaches_limit max_steps_reached = true
reaches_limit doom_loop_detected = true
reaches_limit _ = false

module _ {Arguments Value W : Type 0} (env : Environment Arguments Value W) (max_steps : ℕ) where
  -- What follows n rounds: rounds of calls and the results that answer them, each a step of at most
  -- max_steps; and then the end, by its reason, with the count of steps.
  pub data Tail : ℕ → List (AgentMessage Arguments Value) → TerminationReason → ℕ → Type 0 where
    again :
        (n : ℕ) (content : Text) (call : ToolCall Arguments) (calls : List (ToolCall Arguments))
        (results : List (ToolPipelineResult Value)) (rest : List (AgentMessage Arguments Value))
        (reason : TerminationReason) (m : ℕ)
        → n < max_steps
        → Answers (call ∷ calls) results
        → Tail (suc n) rest reason m
        → Tail n
            (assistant env max_steps content (call ∷ calls)
              ∷ tool_message env max_steps results
              ∷ rest)
            reason
            m
    aborts : (n : ℕ) → Tail n [] aborted n
    says_nothing : (n : ℕ) → Tail n [] text_only_response n
    says :
        (n : ℕ) (content : Text)
        → Tail n (assistant env max_steps content [] ∷ []) text_only_response n
    fails : (n : ℕ) (content : Text) → Tail n (assistant env max_steps content [] ∷ []) failed n
    is_limited :
        (n : ℕ) (content last : Text) (call : ToolCall Arguments)
        (calls : List (ToolCall Arguments))
        → max_steps ≤ n
        → Tail n
            (assistant env max_steps content (call ∷ calls) ∷ assistant env max_steps last [] ∷ [])
            max_steps_reached
            n
    is_stuck :
        (n : ℕ) (content last : Text) (call : ToolCall Arguments)
        (calls : List (ToolCall Arguments))
        → n < max_steps
        → Tail n
            (assistant env max_steps content (call ∷ calls) ∷ assistant env max_steps last [] ∷ [])
            doom_loop_detected
            (suc n)

  -- A result that goes on from a state.
  abbrev pub Ends : State Arguments Value W → Result Arguments Value W → Type 0
  Ends s result =
      (tail : List (AgentMessage Arguments Value)) × (result.state.messages ≡ s.messages ++ tail)
      × Tail s.steps_used tail result.reason result.state.steps_used
      × (result.limit_reached ≡ reaches_limit result.reason)
