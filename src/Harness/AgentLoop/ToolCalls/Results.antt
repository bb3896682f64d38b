-- ===== src/Harness/AgentLoop/ToolCalls/Results.antt =====
-- What the results of a batch of calls answer.
use reins_core.Prelude.{
  ◌≡◌, refl, sym, subst, inl, inr, true, Option, none, some, List, [], ◌∷◌, ◌++◌, map, arith,
  Bool-cases, Option-cases,
}
use reins_core.Prelude.Text.{Text, units}
use reins_core.Harness.DoomLoopGuard.{DoomLoopGuard}
use reins_core.Harness.Tools.{
  ToolCall, ToolPipelineResult, Attempt, Attempt-cases, create_error_result,
}
use reins_core.Harness.AgentLoop.Parts
use reins_core.Harness.AgentLoop.Parts.{AgentMessage, StepType, StepResult, Environment}
use reins_core.Harness.AgentLoop.ToolCalls.{
  record_guard_outcome, chosen_delegate, extract_delegation_task, delegated_result,
  execute_delegation, is_tool_allowed, settle_call, settle_calls, executable_calls, fill,
  or_fallback, finish, run_pipeline, execute_tool_calls,
}

module _ {Arguments Value : Type 0} where
  -- The results answer the calls: as many, in the same order, by their identities.
  abbrev pub Answers : List (ToolCall Arguments) → List (ToolPipelineResult Value) → Type 0
  Answers calls results = map (λ result. result.call_id) results ≡ map (λ call. call.id) calls

  -- A place is empty, or has a result of the call that stands there.
  abbrev Matches : List (ToolCall Arguments) → List (Option (ToolPipelineResult Value)) → Type 0
  Matches [] [] = Unit
  Matches (call ∷ calls) (none ∷ slots) = Matches calls slots
  Matches (call ∷ calls) (some result ∷ slots) = (result.call_id ≡ call.id) × Matches calls slots
  Matches _ _ = ⊥

module _ {Arguments Value W : Type 0} (env : Environment Arguments Value W) where
  abbrev MatchesOne : ToolCall Arguments → Option (ToolPipelineResult Value) → Type 0
  MatchesOne call none = Unit
  MatchesOne call (some result) = result.call_id ≡ call.id

  call_id-delegated_result :
      (call : ToolCall Arguments) (step : StepResult Arguments Value) (type : StepType)
      → (delegated_result env call step type).call_id ≡ call.id
  call_id-delegated_result call step Parts.error = refl
  call_id-delegated_result call step Parts.tool_calls = refl
  call_id-delegated_result call step Parts.text = refl

  call_id-execute_delegation :
      (delegate : Text
        → ToolCall Arguments
        → List (AgentMessage Arguments Value)
        → W
        → Attempt (StepResult Arguments Value) × W)
      (call : ToolCall Arguments) (messages : List (AgentMessage Arguments Value)) (w : W)
      → (execute_delegation env delegate call messages w).0.call_id ≡ call.id
  unfolding execute_delegation
  call_id-execute_delegation delegate call messages w =
      elim (Attempt-cases (delegate (extract_delegation_task env call) call messages w).0) [
        | inl (step, e) ↦ ground (arith, call_id-delegated_result call step step.type)
        | inr (message, e) ↦ ground arith
      ]

  settle_call-Matches :
      (call : ToolCall Arguments) (messages : List (AgentMessage Arguments Value)) (w : W)
      → MatchesOne call (settle_call env call messages w).0
  unfolding settle_call
  settle_call-Matches call messages w =
      elim (Option-cases (chosen_delegate env call env.delegation)) [
        | inr (delegate, e) ↦
            let same : (settle_call env call messages w).0
                ≡ some (execute_delegation env delegate call messages w).0 =
              ground arith in
            subst (MatchesOne call) (sym same) (call_id-execute_delegation delegate call messages w)
        | inl e ↦ elim (Bool-cases (is_tool_allowed env call w).0) [
          | inr refused ↦
              let same : (settle_call env call messages w).0
                  ≡ some (
                      create_error_result call 0
                        (units "Permission denied for tool: " ++ call.name)) =
                ground arith in
              subst (MatchesOne call) (sym same) refl
          | inl allowed ↦ elim (Option-cases env.execute_many) [
            | inl missing ↦
                let same : (settle_call env call messages w).0
                    ≡ some (create_error_result call 0 (units "Tool pipeline is not configured")) =
                  ground arith in
                subst (MatchesOne call) (sym same) refl
            | inr (execute, given) ↦
                let same : (settle_call env call messages w).0 ≡ none = ground arith in
                subst (MatchesOne call) (sym same) tt
          ]
        ]
      ]

  Matches-cons :
      (call : ToolCall Arguments) (calls : List (ToolCall Arguments))
      (slot : Option (ToolPipelineResult Value)) (slots : List (Option (ToolPipelineResult Value)))
      → MatchesOne call slot
      → Matches calls slots
      → Matches (call ∷ calls) (slot ∷ slots)
  Matches-cons call calls none slots h k = k
  Matches-cons call calls (some result) slots h k = (h, k)

  settle_calls-Matches :
      (calls : List (ToolCall Arguments)) (messages : List (AgentMessage Arguments Value)) (w : W)
      → Matches calls (settle_calls env calls messages w).0
  unfolding settle_calls
  settle_calls-Matches [] messages w = tt
  settle_calls-Matches (call ∷ calls) messages w =
      let (slot, w') = settle_call env call messages w in
      Matches-cons call calls slot (settle_calls env calls messages w').0
        (settle_call-Matches call messages w) (settle_calls-Matches calls messages w')

  fill-Matches :
      (calls : List (ToolCall Arguments)) (slots : List (Option (ToolPipelineResult Value)))
      (results : List (ToolPipelineResult Value))
      → Matches calls slots
      → Answers (executable_calls env calls slots) results
      → Matches calls (fill env slots results)
  unfolding fill executable_calls
  fill-Matches [] [] results h k = tt
  fill-Matches [] (slot ∷ slots) results h k = absurd h
  fill-Matches (call ∷ calls) [] results h k = absurd h
  fill-Matches (call ∷ calls) (some result ∷ slots) results (h, hs) k =
      (h, fill-Matches calls slots results hs k)
  fill-Matches (call ∷ calls) (none ∷ slots) [] h k = fill-Matches calls slots [] h (absurd (cc))
  fill-Matches (call ∷ calls) (none ∷ slots) (result ∷ results) h k =
      (cc, fill-Matches calls slots results h (cc))

  finish-Answers :
      (calls : List (ToolCall Arguments)) (slots : List (Option (ToolPipelineResult Value)))
      (guard : Option DoomLoopGuard)
      → Matches calls slots
      → Answers calls (finish env calls slots guard).0
  unfolding finish
  finish-Answers [] [] guard h = refl
  finish-Answers [] (slot ∷ slots) guard h = absurd h
  finish-Answers (call ∷ calls) [] guard h = absurd h
  finish-Answers (call ∷ calls) (none ∷ slots) guard h =
      let rest =
        finish-Answers calls slots (record_guard_outcome env guard (or_fallback env call none)) h in
      cc
  finish-Answers (call ∷ calls) (some result ∷ slots) guard (h, hs) =
      let rest = finish-Answers calls slots (record_guard_outcome env guard result) hs in cc

  -- The pipeline, where there is one, answers the calls that it is given.
  abbrev pub PipelineAnswers : Type 0
  PipelineAnswers =
      (execute : List (ToolCall Arguments) → W → List (ToolPipelineResult Value) × W)
      → env.execute_many ≡ some execute
      → (calls : List (ToolCall Arguments)) (w : W) → Answers calls (execute calls w).0

  -- A call that is left to the pipeline finds one.
  settle_call-none :
      (call : ToolCall Arguments) (messages : List (AgentMessage Arguments Value)) (w : W)
      → (settle_call env call messages w).0 ≡ none
      → ((execute : List (ToolCall Arguments) → W → List (ToolPipelineResult Value) × W)
          × (env.execute_many ≡ some execute))
        × ((is_tool_allowed env call w).0 ≡ true)
  unfolding settle_call
  settle_call-none call messages w h =
      elim (Option-cases (chosen_delegate env call env.delegation)) [
        | inr (delegate, e) ↦ ground arith
        | inl e ↦ elim (Bool-cases (is_tool_allowed env call w).0) [
          | inr refused ↦ ground arith
          | inl allowed ↦ elim (Option-cases env.execute_many) [
            | inl missing ↦ ground arith
            | inr given ↦ (given, allowed)
          ]
        ]
      ]

  -- Nothing is executed where there is no pipeline.
  no_pipeline :
      (calls : List (ToolCall Arguments)) (messages : List (AgentMessage Arguments Value)) (w : W)
      → env.execute_many ≡ none
      → executable_calls env calls (settle_calls env calls messages w).0 ≡ []
  unfolding settle_calls executable_calls
  no_pipeline [] messages w e = refl
  no_pipeline (call ∷ calls) messages w e =
      let w' = (settle_call env call messages w).1 in
      elim (Option-cases (settle_call env call messages w).0) [
        | inr (result, settled) ↦ rw settled (no_pipeline calls messages w' e)
        | inl empty ↦
            absurd (let ((execute, given), _) = settle_call-none call messages w empty in cc)
      ]

  run_pipeline-Answers :
      (calls : List (ToolCall Arguments)) (w : W)
      (found : Option (List (ToolCall Arguments) → W → List (ToolPipelineResult Value) × W))
      → env.execute_many ≡ found
      → PipelineAnswers
      → (env.execute_many ≡ none → calls ≡ [])
      → Answers calls (run_pipeline env found calls w).0
  run_pipeline-Answers calls w none e answers empty = rw (empty e) refl
  run_pipeline-Answers [] w (some execute) e answers empty = refl
  run_pipeline-Answers (call ∷ calls) w (some execute) e answers empty =
      answers execute e (call ∷ calls) w

  -- The results of a batch answer its calls, one result for each call and in their order, whichever
  -- of them are delegated, refused or executed, if the pipeline answers the calls that it is given.
  pub execute_tool_calls-Answers :
      (calls : List (ToolCall Arguments)) (messages : List (AgentMessage Arguments Value))
      (guard : Option DoomLoopGuard) (w : W)
      → PipelineAnswers
      → Answers calls (execute_tool_calls env calls messages guard w).0
  unfolding execute_tool_calls
  execute_tool_calls-Answers calls messages guard w answers =
      let (slots, w') = settle_calls env calls messages w in
      let executables = executable_calls env calls slots in
      let piped = (run_pipeline env env.execute_many executables w').0 in
      finish-Answers calls (fill env slots piped) guard (
        fill-Matches calls slots piped (settle_calls-Matches calls messages w) (
          run_pipeline-Answers executables w' env.execute_many refl answers
            (no_pipeline calls messages w)))
