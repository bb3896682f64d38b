-- ===== src/Harness/AgentLoop/ToolCalls/Permitted.antt =====
-- Which calls of a batch `executeToolCalls` gives to the pipeline, by the answers of the permission
-- checker.
use reins_core.Prelude.{
  ◌≡◌, refl, subst, ◌⊎◌, inl, inr, Bool, true, false, Option, none, some, List, [], ◌∷◌, ◌++◌,
  arith, Bool-cases, Option-cases,
}
use reins_core.Prelude.Text.{Text, units}
use reins_core.Harness.DoomLoopGuard.{DoomLoopGuard}
use reins_core.Harness.Tools.{ToolCall, ToolPipelineResult, Attempt, create_error_result}
use reins_core.Harness.AgentLoop.Parts.{AgentMessage, StepResult, Environment}
use reins_core.Harness.AgentLoop.ToolCalls.{
  chosen_delegate, extract_delegation_task, execute_delegation, is_tool_allowed, settle_call,
  settle_calls, executable_calls, run_pipeline, execute_tool_calls,
}

module _ {Arguments Value W : Type 0} (env : Environment Arguments Value W)
    (messages : List (AgentMessage Arguments Value)) where
  abbrev Delegate : Type 0
  Delegate =
      Text
      → ToolCall Arguments
      → List (AgentMessage Arguments Value)
      → W
      → Attempt (StepResult Arguments Value) × W

  -- The checker is asked once about the call and answers so; without one the call is allowed.
  abbrev pub IsAnswer : ToolCall Arguments → W → Bool → W → Type 0
  IsAnswer call w allowed w' =
      ((env.request_permission ≡ none) × (allowed ≡ true) × (w' ≡ w))
      ⊎ ((request : ToolCall Arguments → W → Bool × W) × (env.request_permission ≡ some request)
          × (request call w ≡ (allowed, w')))

  -- From a world, the calls of a batch lead to a world and to the calls that are to be executed: a
  -- call goes to the delegate, or the checker is asked about it, once.
  pub data Settles : List (ToolCall Arguments) → W → List (ToolCall Arguments) → W → Type 0 where
    settled : (w : W) → Settles [] w [] w
    delegated :
        (call : ToolCall Arguments) (calls ran : List (ToolCall Arguments)) (w w' : W)
        (delegate : Delegate)
        → chosen_delegate env call env.delegation ≡ some delegate
        → Settles calls (delegate (extract_delegation_task env call) call messages w).1 ran w'
        → Settles (call ∷ calls) w ran w'
    refused :
        (call : ToolCall Arguments) (calls ran : List (ToolCall Arguments)) (w asked w' : W)
        → chosen_delegate env call env.delegation ≡ none
        → IsAnswer call w false asked
        → Settles calls asked ran w'
        → Settles (call ∷ calls) w ran w'
    unpiped :
        (call : ToolCall Arguments) (calls ran : List (ToolCall Arguments)) (w asked w' : W)
        → chosen_delegate env call env.delegation ≡ none
        → IsAnswer call w true asked
        → env.execute_many ≡ none
        → Settles calls asked ran w'
        → Settles (call ∷ calls) w ran w'
    permitted :
        (call : ToolCall Arguments) (calls ran : List (ToolCall Arguments)) (w asked w' : W)
        (execute : List (ToolCall Arguments) → W → List (ToolPipelineResult Value) × W)
        → chosen_delegate env call env.delegation ≡ none
        → IsAnswer call w true asked
        → env.execute_many ≡ some execute
        → Settles calls asked ran w'
        → Settles (call ∷ calls) w (call ∷ ran) w'

  is_tool_allowed-IsAnswer :
      (call : ToolCall Arguments) (w : W) (allowed : Bool)
      → (is_tool_allowed env call w).0 ≡ allowed
      → IsAnswer call w allowed (is_tool_allowed env call w).1
  unfolding is_tool_allowed
  is_tool_allowed-IsAnswer call w allowed e = elim (Option-cases env.request_permission) [
    | inl missing ↦ inl (missing, ground arith, ground arith)
    | inr (request, given) ↦ inr (request, given, ground arith)
  ]

  execute_delegation-world :
      (delegate : Delegate) (call : ToolCall Arguments) (w : W)
      → (execute_delegation env delegate call messages w).1
        ≡ (delegate (extract_delegation_task env call) call messages w).1
  unfolding execute_delegation
  execute_delegation-world delegate call w = ground arith

  IsSettled : Option (ToolPipelineResult Value) → Type 0
  IsSettled slot = (result : ToolPipelineResult Value) × (slot ≡ some result)

  -- What one call comes to: its place and the world after it.
  abbrev Case : ToolCall Arguments → W → Option (ToolPipelineResult Value) → W → Type 0
  Case call w slot w' =
      ((delegate : Delegate) × (chosen_delegate env call env.delegation ≡ some delegate)
        × (w' ≡ (delegate (extract_delegation_task env call) call messages w).1)
        × IsSettled slot)
      ⊎ ((chosen_delegate env call env.delegation ≡ none)
          × ((IsAnswer call w false w' × IsSettled slot)
              ⊎ (IsAnswer call w true w'
                  × (((env.execute_many ≡ none) × IsSettled slot)
                      ⊎ (((execute : List (ToolCall Arguments)
                              → W
                              → List (ToolPipelineResult Value) × W)
                            × (env.execute_many ≡ some execute))
                          × (slot ≡ none))))))

  settle_call-Case :
      (call : ToolCall Arguments) (w : W)
      → Case call w (settle_call env call messages w).0 (settle_call env call messages w).1
  unfolding settle_call IsSettled
  settle_call-Case call w = elim (Option-cases (chosen_delegate env call env.delegation)) [
    | inr (delegate, e) ↦
        let world = execute_delegation-world delegate call w in
        inl (
          delegate,
          e,
          ground arith,
          ((execute_delegation env delegate call messages w).0, ground arith),
        )
    | inl e ↦
        let asked : (is_tool_allowed env call w).1 ≡ (settle_call env call messages w).1 =
          ground arith in
        let answer : (allowed : Bool)
            → (is_tool_allowed env call w).0 ≡ allowed
            → IsAnswer call w allowed (settle_call env call messages w).1 =
          λ allowed h.
            subst (IsAnswer call w allowed) asked (is_tool_allowed-IsAnswer call w allowed h) in
        inr (
          e,
          elim (Bool-cases (is_tool_allowed env call w).0) [
            | inr no_leave ↦ inl (
              answer false no_leave,
              (
                create_error_result call 0 (units "Permission denied for tool: " ++ call.name),
                ground arith,
              ),
            )
            | inl leave ↦ inr (
              answer true leave,
              elim (Option-cases env.execute_many) [
                | inl missing ↦ inl (
                  missing,
                  (
                    create_error_result call 0 (units "Tool pipeline is not configured"),
                    ground arith,
                  ),
                )
                | inr given ↦ inr (given, ground arith)
              ],
            )
          ],
        )
  ]

  executable_calls-IsSettled :
      (call : ToolCall Arguments) (calls : List (ToolCall Arguments))
      (slot : Option (ToolPipelineResult Value)) (slots : List (Option (ToolPipelineResult Value)))
      → IsSettled slot
      → executable_calls env calls slots ≡ executable_calls env (call ∷ calls) (slot ∷ slots)
  unfolding executable_calls IsSettled
  executable_calls-IsSettled call calls slot slots (result, e) = rw e refl

  -- One call, with what the rest of the batch comes to from the world after it.
  Case-Settles :
      (call : ToolCall Arguments) (calls : List (ToolCall Arguments)) (w v w' : W)
      (slot : Option (ToolPipelineResult Value)) (slots : List (Option (ToolPipelineResult Value)))
      → Case call w slot v
      → Settles calls v (executable_calls env calls slots) w'
      → Settles (call ∷ calls) w (executable_calls env (call ∷ calls) (slot ∷ slots)) w'
  unfolding executable_calls
  Case-Settles call calls w v w' slot slots (inl (delegate, e, same, one)) rest =
      subst (λ ran. Settles (call ∷ calls) w ran w')
        (executable_calls-IsSettled call calls slot slots one)
        (delegated call calls _ w w' delegate e
          (subst (λ x. Settles calls x (executable_calls env calls slots) w') same rest))
  Case-Settles call calls w v w' slot slots (inr (e, inl (no_leave, one))) rest =
      subst (λ ran. Settles (call ∷ calls) w ran w')
        (executable_calls-IsSettled call calls slot slots one)
        (refused call calls _ w v w' e no_leave rest)
  Case-Settles call calls w v w' slot slots (inr (e, inr (leave, inl (missing, one)))) rest =
      subst (λ ran. Settles (call ∷ calls) w ran w')
        (executable_calls-IsSettled call calls slot slots one)
        (unpiped call calls _ w v w' e leave missing rest)
  Case-Settles call calls w v w' slot slots (inr (e, inr (leave, inr ((execute, given), empty))))
        rest =
      rw empty (permitted call calls _ w v w' execute e leave given rest)

  settle_calls-Settles :
      (calls : List (ToolCall Arguments)) (w : W)
      → Settles calls w
          (executable_calls env calls (settle_calls env calls messages w).0)
          (settle_calls env calls messages w).1
  unfolding settle_calls executable_calls
  settle_calls-Settles [] w = settled w
  settle_calls-Settles (call ∷ calls) w =
      let w' = (settle_call env call messages w).1 in
      Case-Settles call calls w w' (settle_calls env calls messages w').1
        (settle_call env call messages w).0 (settle_calls env calls messages w').0
        (settle_call-Case call w) (settle_calls-Settles calls w')

  -- The pipeline takes a world on by executing the calls, if there are any.
  abbrev pub Executes :
      Option (List (ToolCall Arguments) → W → List (ToolPipelineResult Value) × W)
      → List (ToolCall Arguments)
      → W
      → W
      → Type 0
  Executes (some execute) (call ∷ calls) w w' = w' ≡ (execute (call ∷ calls) w).1
  Executes _ _ w w' = w' ≡ w

  run_pipeline-Executes :
      (found : Option (List (ToolCall Arguments) → W → List (ToolPipelineResult Value) × W))
      (calls : List (ToolCall Arguments)) (w : W)
      → Executes found calls w (run_pipeline env found calls w).1
  run_pipeline-Executes none calls w = refl
  run_pipeline-Executes (some execute) [] w = refl
  run_pipeline-Executes (some execute) (call ∷ calls) w = refl

  -- A batch of calls is settled and then executed: the checker is asked once about each call that is
  -- not delegated, in the order of the calls, and the pipeline is given just those calls for which
  -- that answer was yes, all of them at once and after the last answer; nothing else acts on the
  -- world but the delegate.
  pub execute_tool_calls-Settles :
      (calls : List (ToolCall Arguments)) (guard : Option DoomLoopGuard) (w : W)
      → (ran : List (ToolCall Arguments)) × (asked : W) × Settles calls w ran asked
        × Executes env.execute_many ran asked (execute_tool_calls env calls messages guard w).2
  unfolding execute_tool_calls
  execute_tool_calls-Settles calls guard w =
      let (slots, asked) = settle_calls env calls messages w in
      (
        executable_calls env calls slots,
        asked,
        settle_calls-Settles calls w,
        run_pipeline-Executes env.execute_many (executable_calls env calls slots) asked,
      )
