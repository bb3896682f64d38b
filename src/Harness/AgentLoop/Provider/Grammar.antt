-- ===== src/Harness/AgentLoop/Provider/Grammar.antt =====
-- The shape of what a run over a provider yields.
use reins_core.Prelude.{
  append_assoc, ℕ, zero, suc, ◌+◌, ◌≤◌, ◌≡◌, ◌≢◌, sym, subst, ◌⊎◌, Bool, true, false, some, List,
  [], ◌∷◌, ◌++◌, map, All, arith,
}
use reins_core.Prelude.Text.{Text, units, text_eq}
use reins_core.Harness.Tools.{ToolCall, ToolResult, Attempt, returns, throws}
use reins_core.Harness.AgentLoop.Parts.{
  TerminationReason, text_only_response, max_steps_reached, doom_loop_detected, aborted,
}
use reins_core.Harness.AgentLoop.Run.Grammar.{reaches_limit}
use reins_core.Harness.AgentLoop.Provider.Parts
use reins_core.Harness.AgentLoop.Provider.Parts.{
  ProviderMessage, StreamEvent, Compaction, LoopEvent, Done,
}
use reins_core.Harness.AgentLoop.Provider.Data.{
  Environment, Streamed, StreamEnd, read, failed, rejected, Outcome, ended, threw, out_of_fuel,
}
use reins_core.Harness.AgentLoop.Provider.Stream.{is_aborted, read_stream, nothing_read}

module _ {Arguments Value : Type 0} where
  -- Each call has its result, in the order of the calls.
  abbrev pub Answered : List (ToolCall Arguments) → List (ToolResult Value) → Type 0
  Answered [] [] = Unit
  Answered (call ∷ calls) (result ∷ results) =
      ((result.call_id ≡ call.id) × (result.name ≡ call.name)) × Answered calls results
  Answered _ _ = ⊥

module _ {Arguments Value Usage : Type 0} where
  -- An event that is a piece of text or tells of a compaction.
  abbrev pub IsPlain : LoopEvent Arguments Value Usage → Type 0
  IsPlain (Parts.token content) = Unit
  IsPlain (Parts.thinking content) = Unit
  IsPlain (Parts.compaction event) = Unit
  IsPlain _ = ⊥

module _ {Arguments Value Given Usage W : Type 0} (env : Environment Arguments Value Given Usage W)
    (max_steps : ℕ) where
  -- A stream of the provider came to this end.
  abbrev pub Gave : StreamEnd Arguments Usage → Type 0
  Gave end =
      (messages : List (ProviderMessage Arguments Given)) × (w : W) × ((read_stream env
          (env.stream messages w).0 (nothing_read env) (env.stream messages w).1).1
        ≡ end)

  -- One of the pulls gives this answer.
  abbrev pub AnswersIn :
      List (W → Attempt (StreamEvent Arguments Usage) × W)
      → Attempt (StreamEvent Arguments Usage)
      → Type 0
  AnswersIn [] answer = ⊥
  AnswersIn (pull ∷ pulls) answer = ((w : W) × ((pull w).0 ≡ answer)) ⊎ AnswersIn pulls answer

  -- A stream of the provider came to this end by this answer.
  abbrev pub Broke : StreamEnd Arguments Usage → Attempt (StreamEvent Arguments Usage) → Type 0
  Broke end answer =
      (messages : List (ProviderMessage Arguments Given)) × (w : W) × ((read_stream env
          (env.stream messages w).0 (nothing_read env) (env.stream messages w).1).1
        ≡ end)
      × AnswersIn (env.stream messages w).0 answer

  -- The calls that are begun are the first of those that a stream asked for, and all of them unless
  -- the signal of their execution is aborted.
  abbrev pub IsBegun : List (ToolCall Arguments) → Type 0
  IsBegun begun =
      (streamed : Streamed Arguments Usage) × Gave (read streamed)
      × (streamed.tool_calls ≢ [])
      × ((left : List (ToolCall Arguments)) × (begun ++ left ≡ streamed.tool_calls)
          × ((left ≡ [])
              ⊎ ((signal : W → Bool) × ((env.tool_signal ≡ some signal)
                    ⊎ (env.loop_signal ≡ some signal))
                  × ((w : W) × (signal w ≡ true)))))

  -- Plain events, and groups of starts of calls with the ends that answer them, so many groups.
  pub data Body : (groups : ℕ) → List (LoopEvent Arguments Value Usage) → Type 0 where
    nothing : Body zero []
    says :
        (groups : ℕ) (event : LoopEvent Arguments Value Usage)
        (events : List (LoopEvent Arguments Value Usage))
        → IsPlain event
        → Body groups events
        → Body groups (event ∷ events)
    calls_tools :
        (groups : ℕ) (begun : List (ToolCall Arguments)) (results : List (ToolResult Value))
        (events : List (LoopEvent Arguments Value Usage))
        → IsBegun begun
        → Answered begun results
        → Body groups events
        → Body
            (suc groups)
            ((map Parts.tool_call_start begun ++ map Parts.tool_call_end results) ++ events)

  pub Body-append :
      (m n : ℕ) (xs ys : List (LoopEvent Arguments Value Usage))
      → Body m xs
      → Body n ys
      → Body (m + n) (xs ++ ys)
  Body-append _ n _ ys nothing k = subst (λ g. Body g ys) (omega arith) k
  Body-append _ n _ ys (says m event events plain b) k =
      says (m + n) event (events ++ ys) plain (Body-append m n events ys b k)
  Body-append _ n _ ys (calls_tools m begun results events asked answered b) k =
      let group = map Parts.tool_call_start begun ++ map Parts.tool_call_end results in
      subst (λ l. Body (suc m + n) l) (sym (append_assoc group events ys))
        (subst (λ g. Body g (group ++ (events ++ ys))) (omega arith)
          (calls_tools (m + n) begun results (events ++ ys) asked answered
            (Body-append m n events ys b k)))

  pub Body-plain : (xs : List (LoopEvent Arguments Value Usage)) → All IsPlain xs → Body zero xs
  Body-plain [] h = nothing
  Body-plain (x ∷ xs) (plain, h) = says zero x xs plain (Body-plain xs h)

  -- What the reason of an end says, after so many groups of calls, each of which was a step: a stream
  -- was read to its end and asks for no tools, or the signal is aborted, where a last step may have
  -- been counted before its calls, or the steps are used up; a doom loop is the guard's to tell, on a
  -- step that is counted and whose calls are not executed.
  abbrev pub IsReason : (groups : ℕ) → TerminationReason → Done Arguments Usage → Type 0
  IsReason groups text_only_response d =
      (d.steps_used ≡ groups)
      × (streamed : Streamed Arguments Usage) × Gave (read streamed)
      × ((streamed.tool_calls ≡ []) ⊎ (text_eq streamed.finish_reason (units "tool_use") ≡ false))
      × (d.finish_reason ≡ streamed.finish_reason)
      × (d.usage ≡ streamed.usage)
  IsReason groups aborted d =
      ((d.steps_used ≡ groups) ⊎ (d.steps_used ≡ suc groups))
      × ((w : W) × (is_aborted env w ≡ true))
  IsReason groups max_steps_reached d = (d.steps_used ≡ groups) × (d.steps_used ≡ max_steps)
  IsReason groups doom_loop_detected d = d.steps_used ≡ suc groups
  IsReason groups _ d = ⊥

  -- The last event: an error that a stream gave, or a `done` with at most the allowed number of
  -- steps, with the limit told just for the reasons that are one, and with a reason that holds.
  abbrev pub IsLast : (groups : ℕ) → LoopEvent Arguments Value Usage → Type 0
  IsLast groups (Parts.error message) = Broke (failed message) (returns (Parts.error message))
  IsLast groups (Parts.done d) =
      (d.steps_used ≤ max_steps)
      × (d.limit_reached ≡ reaches_limit d.termination_reason)
      × IsReason groups d.termination_reason d
  IsLast groups _ = ⊥

  -- What is yielded from a point on, before which there were some groups.
  abbrev pub YieldsAfter : ℕ → Outcome Arguments Value Usage → Type 0
  YieldsAfter before (ended events last) =
      (groups : ℕ) × Body groups events × IsLast (before + groups) last
  YieldsAfter before (threw events) =
      (groups : ℕ) × Body groups events × ((message : Text) × Broke rejected (throws message))
  YieldsAfter before out_of_fuel = ⊥

  abbrev pub Yields : Outcome Arguments Value Usage → Type 0
  Yields = YieldsAfter 0
