-- ===== src/Harness/ToolPipeline/Answers.antt =====
-- Whose results the pipeline gives, over an executor of its own.
use reins_core.Prelude.{
  ℕ, ◌-◌, ◌≡◌, refl, inl, inr, Option, none, some, List, [], ◌∷◌, arith, Bool-cases,
}
use reins_core.Prelude.Text.{Text}
use reins_core.Harness.Tools.{ToolCall, ToolResult, Attempt, returns, Attempt-cases}
use reins_core.Harness.AgentLoop.ToolCalls.Results.{Answers}
use reins_core.Harness.ToolPipeline.{
  Environment, normalize_by, normalize_tool_result, run_before_hooks, attempt, execute,
  execute_many, kept_result,
}

module _ {Arguments Value W : Type 0} (env : Environment Arguments Value W) where
  -- What the executor returns for a call has the identity of the call.
  abbrev pub ExecutorAnswers : Type 0
  ExecutorAnswers =
      (call : ToolCall Arguments) (timeout_ms : ℕ) (w : W) (result : ToolResult Value)
      → (env.execute_with_timeout call timeout_ms w).0 ≡ returns result
      → result.call_id ≡ call.id

  call_id-kept_result :
      (result : ToolResult Value) (duration_ms : ℕ) (cut : _)
      → (kept_result env result duration_ms cut).call_id ≡ result.call_id
  call_id-kept_result result duration_ms (output, none) = refl
  call_id-kept_result result duration_ms (output, some original) = refl

  call_id-normalize_by :
      (error : Option Text) (result : ToolResult Value) (duration_ms : ℕ)
      → (normalize_by env error result duration_ms).call_id ≡ result.call_id
  call_id-normalize_by none result duration_ms = call_id-kept_result result duration_ms _
  call_id-normalize_by (some []) result duration_ms = call_id-kept_result result duration_ms _
  call_id-normalize_by (some (c ∷ cs)) result duration_ms = refl

  -- What the executor is not asked for is not returned.
  attempt_of_executor :
      (call : ToolCall Arguments) (w : W) (result : ToolResult Value)
      → (attempt env call w).0 ≡ returns result
      → (w' : W) × ((env.execute_with_timeout call env.default_timeout_ms w').0 ≡ returns result)
  unfolding attempt
  attempt_of_executor call w result h = elim (Bool-cases (env.is_aborted w)) [
    | inl aborted ↦ absurd (ground arith)
    | inr goes ↦
        let hooks : Attempt (Unit {0}) × W =
          run_before_hooks env env.before_hooks call (env.emit_tool_call_start call w) in
        elim (Attempt-cases hooks.0) [
          | inl (done, e) ↦ (hooks.1, ground arith)
          | inr (message, e) ↦ absurd (ground arith)
        ]
  ]

  call_id-execute :
      (call : ToolCall Arguments) (w : W)
      → ExecutorAnswers
      → (execute env call w).0.call_id ≡ call.id
  unfolding execute normalize_tool_result
  call_id-execute call w answers = elim (Attempt-cases (attempt env call w).0) [
    | inl (result, e) ↦
        let (w', given) = attempt_of_executor call w result e in
        let same = answers call env.default_timeout_ms w' result given in
        let duration_ms : ℕ = env.now (attempt env call w).1 - env.now w in
        ground (arith, same, call_id-normalize_by result.error result duration_ms)
    | inr (message, e) ↦ ground arith
  ]

  -- The results of a batch answer its calls, one result for each call and in their order, whichever
  -- hooks throw and whether or not the signal is aborted, if what the executor returns for a call has
  -- the identity of the call.
  pub execute_many-Answers :
      (calls : List (ToolCall Arguments)) (w : W)
      → ExecutorAnswers
      → Answers calls (execute_many env calls w).0
  unfolding execute_many
  execute_many-Answers [] w answers = refl
  execute_many-Answers (call ∷ calls) w answers =
      let one = call_id-execute call w answers in
      let rest = execute_many-Answers calls (execute env call w).1 answers in cc
