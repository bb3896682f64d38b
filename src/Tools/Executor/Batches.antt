-- ===== src/Tools/Executor/Batches.antt =====
-- What the results of the executor answer.
use reins_core.Prelude.{
  ℕ, zero, suc, ◌≡◌, refl, Bool, true, Option, none, some, List, [], ◌∷◌, length, arith, Bool-cases,
  Option-cases, ◌⊎◌, inl, inr,
}
use reins_core.Harness.Tools.{ToolCall, ToolResult, Attempt, Attempt-cases}
use reins_core.Tools.Executor.{
  RawResult, Environment, run_tool, execute, execute_until, execute_all, execute_by, execute_many,
  execute_with_timeout,
}

module _ {Arguments Value W : Type 0} (env : Environment Arguments Value W) where
  -- A result of a call, by its identity and its name.
  abbrev pub IsOf : ToolCall Arguments → ToolResult Value → Type 0
  IsOf call result = (result.call_id ≡ call.id) × (result.name ≡ call.name)

  -- The results are those of the first calls, in their order.
  abbrev pub AnswersFirst : List (ToolCall Arguments) → List (ToolResult Value) → Type 0
  AnswersFirst calls [] = Unit
  AnswersFirst [] (result ∷ results) = ⊥
  AnswersFirst (call ∷ calls) (result ∷ results) = IsOf call result × AnswersFirst calls results

  run_tool-IsOf :
      (tool : Arguments → W → Attempt (RawResult Value) × W) (call : ToolCall Arguments) (w : W)
      → IsOf call (run_tool env tool call w).0
  unfolding run_tool
  run_tool-IsOf tool call w = elim (Attempt-cases (tool call.arguments w).0) [
    | inl (raw, e) ↦ (ground arith, ground arith)
    | inr (message, e) ↦ (ground arith, ground arith)
  ]

  pub execute-IsOf : (call : ToolCall Arguments) (w : W) → IsOf call (execute env call w).0
  unfolding execute
  execute-IsOf call w = elim (Option-cases (env.find_tool call.name)) [
    | inl missing ↦ (ground arith, ground arith)
    | inr (tool, e) ↦
        let (id, name) = run_tool-IsOf tool call w in (ground (arith, id), ground (arith, name))
  ]

  pub execute_with_timeout-IsOf :
      (call : ToolCall Arguments) (timeout_ms : ℕ) (w : W)
      → IsOf call (execute_with_timeout env call timeout_ms w).0
  unfolding execute_with_timeout
  execute_with_timeout-IsOf call zero w = (refl, refl)
  execute_with_timeout-IsOf call (suc n) w =
      let (id, name) = execute-IsOf call w in (ground (arith, id), ground (arith, name))

  execute_all_lem :
      (calls : List (ToolCall Arguments)) (w : W)
      → AnswersFirst calls (execute_all env calls w).0
        × (length (execute_all env calls w).0 ≡ length calls)
  unfolding execute_all
  execute_all_lem [] w = (tt, refl)
  execute_all_lem (call ∷ calls) w =
      let (answers, size) = execute_all_lem calls (execute env call w).1 in
      ((execute-IsOf call w, answers), omega (arith, size))

  execute_until_lem :
      (aborted : W → Bool) (calls : List (ToolCall Arguments)) (w : W)
      → AnswersFirst calls (execute_until env aborted calls w).0
        × ((length (execute_until env aborted calls w).0 ≡ length calls)
            ⊎ (aborted (execute_until env aborted calls w).1 ≡ true))
  unfolding execute_until
  execute_until_lem aborted [] w = (tt, inl refl)
  execute_until_lem aborted (call ∷ calls) w = elim (Bool-cases (aborted w)) [
    | inl gone ↦ rw gone (tt, inr gone)
    | inr here ↦
        let (answers, size) = execute_until_lem aborted calls (execute env call w).1 in
        rw here ((execute-IsOf call w, answers), ground (arith, size))
  ]

  -- Whether the calls of a batch were all executed: they were, if no signal stops the batch.
  abbrev pub IsWhole :
      Option (W → Bool) → List (ToolCall Arguments) → List (ToolResult Value) → W → Type 0
  IsWhole none calls results w = length results ≡ length calls
  IsWhole (some aborted) calls results w = (length results ≡ length calls) ⊎ (aborted w ≡ true)

  execute_by_lem :
      (signal : Option (W → Bool)) (calls : List (ToolCall Arguments)) (w : W)
      → AnswersFirst calls (execute_by env signal calls w).0
        × IsWhole signal calls (execute_by env signal calls w).0 (execute_by env signal calls w).1
  unfolding execute_by
  execute_by_lem none calls w = execute_all_lem calls w
  execute_by_lem (some aborted) calls w = execute_until_lem aborted calls w

  -- The results of a batch are those of its first calls, in their order, each with the identity and
  -- the name of its call; and they are those of all its calls unless there is a signal and it is
  -- aborted at the end.
  pub execute_many_lem :
      (calls : List (ToolCall Arguments)) (w : W)
      → AnswersFirst calls (execute_many env calls w).0
        × IsWhole env.signal calls (execute_many env calls w).0 (execute_many env calls w).1
  unfolding execute_many
  execute_many_lem calls w = execute_by_lem env.signal calls w
