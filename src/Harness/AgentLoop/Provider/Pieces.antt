-- ===== src/Harness/AgentLoop/Provider/Pieces.antt =====
-- The results of a round's calls.
use reins_core.Prelude.{
  append_nil, ℕ, ◌≡◌, refl, ap, ◌⊎◌, inl, inr, Bool, true, Option, none, some, List, [], ◌∷◌, ◌++◌,
  length, arith, Bool-cases,
}
use reins_core.Harness.Tools.{ToolCall, ToolResult}
use reins_core.Harness.AgentLoop.Provider.Data.{Environment}
use reins_core.Harness.AgentLoop.Provider.{executor_with, execute_until, execute_calls}
use reins_core.Harness.AgentLoop.Provider.Grammar.{Answered}
use reins_core.Tools.Executor
use reins_core.Tools.Executor.Batches.{AnswersFirst, execute-IsOf, execute_many_lem}

module _ {Arguments Value Given Usage W : Type 0} (env : Environment Arguments Value Given Usage W)
    (max_steps : ℕ) where
  Answered-of-AnswersFirst :
      (executor : Executor.Environment Arguments Value W) (calls : List (ToolCall Arguments))
      (results : List (ToolResult Value))
      → AnswersFirst executor calls results
      → length results ≡ length calls
      → Answered calls results
  Answered-of-AnswersFirst executor [] [] h size = tt
  Answered-of-AnswersFirst executor [] (result ∷ results) h size = absurd h
  Answered-of-AnswersFirst executor (call ∷ calls) [] h size = absurd (omega arith)
  Answered-of-AnswersFirst executor (call ∷ calls) (result ∷ results) (one, h) size =
      (one, Answered-of-AnswersFirst executor calls results h (omega arith))

  execute_until-Answered :
      (signal : W → Bool) (calls : List (ToolCall Arguments)) (w : W)
      → Answered
          (execute_until env max_steps signal calls w).0
          (execute_until env max_steps signal calls w).1
  unfolding execute_until
  execute_until-Answered signal [] w = tt
  execute_until-Answered signal (call ∷ calls) w =
      let executor = executor_with env max_steps (some signal) in
      let w' = (Executor.execute executor call w).1 in
      let one = execute-IsOf executor call w in
      let rest = execute_until-Answered signal calls w' in
      elim (Bool-cases (signal w)) [
        | inl gone ↦ rw gone tt
        | inr here ↦ rw here (elim (Bool-cases (signal w')) [
          | inl stopped ↦ rw stopped (one, tt)
          | inr runs ↦ rw runs (one, rest)
        ])
      ]

  -- The calls that are begun are the first of all, and all of them unless the signal is aborted.
  abbrev pub IsFirst :
      (signal : Option (W → Bool)) → (calls begun : List (ToolCall Arguments)) → Type 0
  IsFirst signal calls begun =
      (left : List (ToolCall Arguments)) × (begun ++ left ≡ calls)
      × ((left ≡ []) ⊎ ((given : W → Bool) × (signal ≡ some given) × ((w : W) × (given w ≡ true))))

  execute_until-IsFirst :
      (signal : W → Bool) (calls : List (ToolCall Arguments)) (w : W)
      → IsFirst (some signal) calls (execute_until env max_steps signal calls w).0
  unfolding execute_until
  execute_until-IsFirst signal [] w = ([], refl, inl refl)
  execute_until-IsFirst signal (call ∷ calls) w =
      let executor = executor_with env max_steps (some signal) in
      let w' = (Executor.execute executor call w).1 in
      let (left, same, whole) = execute_until-IsFirst signal calls w' in
      elim (Bool-cases (signal w)) [
        | inl gone ↦ rw gone (call ∷ calls, refl, inr (signal, refl, (w, gone)))
        | inr here ↦ rw here (elim (Bool-cases (signal w')) [
          | inl stopped ↦ rw stopped (calls, refl, inr (signal, refl, (w', stopped)))
          | inr runs ↦ rw runs (left, ap (λ l. call ∷ l) same, whole)
        ])
      ]

  pub execute_calls-IsFirst :
      (signal : Option (W → Bool)) (calls : List (ToolCall Arguments)) (w : W)
      → IsFirst signal calls (execute_calls env max_steps signal calls w).0
  unfolding execute_calls
  execute_calls-IsFirst none calls w = ([], append_nil calls, inl refl)
  execute_calls-IsFirst (some signal) calls w = execute_until-IsFirst signal calls w

  pub execute_calls-Answered :
      (signal : Option (W → Bool)) (calls : List (ToolCall Arguments)) (w : W)
      → Answered
          (execute_calls env max_steps signal calls w).0
          (execute_calls env max_steps signal calls w).1
  unfolding execute_calls
  execute_calls-Answered none calls w =
      let executor = executor_with env max_steps none in
      let (first, whole) = execute_many_lem executor calls w in
      Answered-of-AnswersFirst executor calls (Executor.execute_many executor calls w).0 first whole
  execute_calls-Answered (some signal) calls w = execute_until-Answered signal calls w
