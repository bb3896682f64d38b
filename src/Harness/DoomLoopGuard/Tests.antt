-- ===== src/Harness/DoomLoopGuard/Tests.antt =====
-- Runs of the guard, and the theorems at inputs that meet their hypotheses.
use reins_core.Prelude.{
  ◌≡◌, refl, ◌≤◌, String, Bool, true, false, none, some, List, [], ◌∷◌, arith, str_eq, map, length,
  take_last, ◌||◌, not,
}
use reins_core.Prelude.Numbers.{finite}
use reins_core.Harness.DoomLoopGuard.{
  Options, new, track, record_failure, record_success, should_escalate,
}
use reins_core.Harness.DoomLoopGuard.Signature.{
  Json, scalar, obj, end, field, to_signature, same_obj, swapped, IsOrder, to_signature-Same,
}
use reins_core.Harness.DoomLoopGuard.Window.{track_all, concat, window_of_history}
use reins_core.Harness.DoomLoopGuard.Escalation.{
  Event, tracked, failed, succeeded, run, IsLoop, escalates_iff,
}

abbrev defaults : Options
defaults = record {
  max_consecutive_failures = none;
  max_total_failures = none;
  window_size = none;
  repetition_threshold = none;
}

abbrev narrow : Options
narrow = record defaults { window_size = some (finite 2) }

abbrev plain : String → String
plain name = name

window_test :
    (track plain (new narrow) ("a" ∷ "b" ∷ "c" ∷ [])).recent_call_signatures ≡ "b" ∷ "c" ∷ []
unfolding track new
window_test = refl

-- Three failures with successes between them do not reach the limit in a row.
mixed_test :
    should_escalate (run plain (new defaults) (failed ∷ succeeded ∷ failed ∷ failed ∷ [])) ≡ false
unfolding should_escalate run record_failure record_success new
mixed_test = refl

window_of_history_example :
    ((track_all plain (new narrow) (("a" ∷ []) ∷ ("b" ∷ "c" ∷ []) ∷ [])).recent_call_signatures
      ≡ take_last
          (new narrow).window_size
          (map plain (concat (("a" ∷ []) ∷ ("b" ∷ "c" ∷ []) ∷ []))))
    × (length
          (track_all plain (new narrow) (("a" ∷ []) ∷ ("b" ∷ "c" ∷ []) ∷ [])).recent_call_signatures
        ≤ (new narrow).window_size)
window_of_history_example = window_of_history plain narrow (("a" ∷ []) ∷ ("b" ∷ "c" ∷ []) ∷ [])

abbrev three_in_a_row : List (Event String)
three_in_a_row = failed ∷ succeeded ∷ failed ∷ failed ∷ failed ∷ []

-- The same call in three steps, one of which failed.
abbrev same_thrice : List (Event String)
same_thrice =
    tracked ("cd" ∷ "ls" ∷ []) ∷ failed ∷ tracked ("ls" ∷ []) ∷ succeeded ∷ tracked ("ls" ∷ []) ∷ []

escalates_iff_example :
    (should_escalate (run plain (new defaults) same_thrice) ≡ true
      → IsLoop plain (new defaults) same_thrice)
    × (IsLoop plain (new defaults) same_thrice
        → should_escalate (run plain (new defaults) same_thrice) ≡ true)
escalates_iff_example = escalates_iff plain defaults same_thrice

same_thrice_test : should_escalate (run plain (new defaults) same_thrice) ≡ true
unfolding should_escalate run track record_failure record_success new
same_thrice_test = refl

-- An order of texts for the example: every text is equal to itself and "a" stands before any other.
abbrev a_first : String → String → Bool
a_first s t = str_eq s "a" || not (str_eq t "a")

a_first-IsOrder : IsOrder a_first
a_first-IsOrder = record { total = λ a b. ground arith; trans = λ a b c h k. ground arith }

abbrev call_one : Json String
call_one = obj (field "a" (scalar "1") (field "b" (scalar "2") end))

abbrev call_two : Json String
call_two = obj (field "b" (scalar "2") (field "a" (scalar "1") end))

to_signature-Same_example :
    to_signature String plain plain a_first ("ls", some call_one)
    ≡ to_signature String plain plain a_first ("ls", some call_two)
to_signature-Same_example =
    to_signature-Same a_first a_first-IsOrder String plain plain "ls" call_one call_two
      (same_obj (swapped refl))

signature_test : to_signature String plain plain a_first ("ls", some call_two) ≡ "ls:{a:1,b:2}"
unfolding to_signature
signature_test = refl
