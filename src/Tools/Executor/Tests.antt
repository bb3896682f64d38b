-- ===== src/Tools/Executor/Tests.antt =====
-- One tool, and a signal that is aborted once the tool has run twice; the world counts its runs.
use reins_core.Prelude.{
  ℕ, suc, ◌≡◌, refl, ◌⊎◌, none, some, List, [], ◌∷◌, leb, length, if◌then◌else◌, true,
}
use reins_core.Prelude.Text.{Text, units, text_eq}
use reins_core.Harness.Tools.{ToolCall, value, returns}
use reins_core.Tools.Executor.{Environment, execute_many}
use reins_core.Tools.Executor.Batches.{AnswersFirst, execute_many_lem}

abbrev env : Environment ℕ ℕ ℕ
env = record {
  find_tool = λ name.
      if text_eq name (units "count")
      then some (λ a w. (returns (record { result = value w; error = none }), suc w))
      else none;
  signal = some (λ w. leb 2 w);
  times_out = λ call w. leb 100 w;
  show = λ n. [];
}

abbrev call_of : Text → ToolCall ℕ
call_of id = record { id = id; name = units "count"; arguments = 0 }

abbrev three_calls : List (ToolCall ℕ)
three_calls = call_of (units "a") ∷ call_of (units "b") ∷ call_of (units "c") ∷ []

-- The signal is aborted while the second call runs, and the third is not begun.
two_results :
    (length (execute_many env three_calls 0).0 ≡ 2) × ((execute_many env three_calls 0).1 ≡ 2)
unfolding execute_many
two_results = (refl, refl)

execute_many_lem_example :
    AnswersFirst env three_calls (execute_many env three_calls 0).0
    × ((length (execute_many env three_calls 0).0 ≡ 3)
        ⊎ (leb 2 (execute_many env three_calls 0).1 ≡ true))
execute_many_lem_example = execute_many_lem env three_calls 0
