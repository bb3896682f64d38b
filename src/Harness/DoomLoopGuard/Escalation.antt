-- ===== src/Harness/DoomLoopGuard/Escalation.antt =====
-- When the guard asks for escalation.
use reins_core.Prelude.{
  ℕ, ◌+◌, ◌-◌, ◌≤◌, ◌≡◌, refl, ◌≢◌, ◌⊎◌, inl, inr, ap, sym, ◌∙◌, subst, String, true, none, some,
  List, [], ◌∷◌, ◌++◌, map, arith, count, get_last?, str_eq, str_eq_iff, count-le-length, take_last,
  take_last-append, drop-nil, Option-cases,
}
use reins_core.Harness.DoomLoopGuard.{
  Options, DoomLoopGuard, new, track, record_failure, record_success, reset_turn, should_escalate,
  is_repeating_pattern,
}

-- What a turn does to the guard.
pub data Event {ℓ} (Call : Type ℓ) : Type ℓ where
  tracked : List Call → Event Call
  failed succeeded turn_reset : Event Call

module _ {ℓ} {Call : Type ℓ} (to_signature : Call → String) where
  unfoldable pub step : DoomLoopGuard → Event Call → DoomLoopGuard
  step g (tracked calls) = track to_signature g calls
  step g failed = record_failure g
  step g succeeded = record_success g
  step g turn_reset = reset_turn g

  unfoldable pub run : DoomLoopGuard → List (Event Call) → DoomLoopGuard
  unfolding step
  run g [] = g
  run g (e ∷ es) = run (step g e) es

  -- The failures since the last reset, of which there were `before` already.
  abbrev pub failures : ℕ → List (Event Call) → ℕ
  failures before [] = before
  failures before (tracked calls ∷ es) = failures before es
  failures before (failed ∷ es) = failures (before + 1) es
  failures before (succeeded ∷ es) = failures before es
  failures before (turn_reset ∷ es) = failures 0 es

  -- The failures since the last success or reset, of which there were `before` already.
  abbrev pub streak : ℕ → List (Event Call) → ℕ
  streak before [] = before
  streak before (tracked calls ∷ es) = streak before es
  streak before (failed ∷ es) = streak (before + 1) es
  streak before (succeeded ∷ es) = streak 0 es
  streak before (turn_reset ∷ es) = streak 0 es

  run-counters :
      (g : DoomLoopGuard) (es : List (Event Call))
      → ((run g es).total_failures ≡ failures g.total_failures es)
        × ((run g es).consecutive_failures ≡ streak g.consecutive_failures es)
        × ((run g es).max_total_failures ≡ g.max_total_failures)
        × ((run g es).max_consecutive_failures ≡ g.max_consecutive_failures)
  unfolding run step track record_failure record_success reset_turn
  run-counters g [] = (refl, refl, refl, refl)
  run-counters g (tracked calls ∷ es) = run-counters (track to_signature g calls) es
  run-counters g (failed ∷ es) = run-counters (record_failure g) es
  run-counters g (succeeded ∷ es) = run-counters (record_success g) es
  run-counters g (turn_reset ∷ es) = run-counters (reset_turn g) es

-- The last of the signatures is no empty text and stands among them so often.
abbrev pub Repeats : ℕ → List String → Type 0
Repeats threshold signatures =
    (s : String) × (get_last? signatures ≡ some s)
    × (s ≢ "")
    × (threshold ≤ count (λ t. str_eq t s) signatures)

get_last?-cases :
    (xs : List String) → (get_last? xs ≡ none) ⊎ ((s : String) × (get_last? xs ≡ some s))
get_last?-cases xs = Option-cases (get_last? xs)

is_repeating_pattern-Repeats :
    (g : DoomLoopGuard)
    → is_repeating_pattern g ≡ true
    → Repeats g.repetition_threshold g.recent_call_signatures
unfolding is_repeating_pattern
is_repeating_pattern-Repeats g h = elim (get_last?-cases g.recent_call_signatures) [
  | inl empty ↦ ground arith
  | inr (s, last) ↦ (s, last, ground (arith, str_eq_iff s ""), ground (arith, str_eq_iff s ""))
]

Repeats-is_repeating_pattern :
    (g : DoomLoopGuard)
    → Repeats g.repetition_threshold g.recent_call_signatures
    → is_repeating_pattern g ≡ true
unfolding is_repeating_pattern
Repeats-is_repeating_pattern g (s, last, given, often) =
    ground (arith, str_eq_iff s "", count-le-length (λ t. str_eq t s) g.recent_call_signatures)

module _ {ℓ} {Call : Type ℓ} (to_signature : Call → String) where
  -- The signatures of all calls since the last reset, where `before` has those before.
  abbrev pub history : List String → List (Event Call) → List String
  history before [] = before
  history before (tracked calls ∷ es) = history (before ++ map to_signature calls) es
  history before (failed ∷ es) = history before es
  history before (succeeded ∷ es) = history before es
  history before (turn_reset ∷ es) = history [] es

  run-window :
      (g : DoomLoopGuard) (before : List String) (es : List (Event Call))
      → g.recent_call_signatures ≡ take_last g.window_size before
      → ((run to_signature g es).recent_call_signatures
          ≡ take_last g.window_size (history before es))
        × ((run to_signature g es).repetition_threshold ≡ g.repetition_threshold)
  unfolding run step track record_failure record_success reset_turn
  run-window g before [] e = (e, refl)
  run-window g before (tracked calls ∷ es) e =
      run-window (track to_signature g calls) (before ++ map to_signature calls) es (
        ap (λ s. take_last g.window_size (s ++ map to_signature calls)) e
        ∙ take_last-append g.window_size before (map to_signature calls))
  run-window g before (failed ∷ es) e = run-window (record_failure g) before es e
  run-window g before (succeeded ∷ es) e = run-window (record_success g) before es e
  run-window g before (turn_reset ∷ es) e =
      run-window (reset_turn g) [] es (sym (drop-nil (0 - g.window_size)))

  -- What makes a guard with these limits ask for escalation after the events.
  abbrev pub IsLoop : DoomLoopGuard → List (Event Call) → Type 0
  IsLoop limits es =
      (limits.max_total_failures ≤ failures to_signature 0 es)
      ⊎ ((limits.max_consecutive_failures ≤ streak to_signature 0 es)
          ⊎ Repeats limits.repetition_threshold (take_last limits.window_size (history [] es)))

  should_escalate-cases :
      (g : DoomLoopGuard)
      → should_escalate g ≡ true
      → (g.max_total_failures ≤ g.total_failures)
        ⊎ ((g.max_consecutive_failures ≤ g.consecutive_failures) ⊎ (is_repeating_pattern g ≡ true))
  unfolding should_escalate
  should_escalate-cases g h = ground arith

  should_escalate-of_cases :
      (g : DoomLoopGuard)
      → (g.max_total_failures ≤ g.total_failures)
        ⊎ ((g.max_consecutive_failures ≤ g.consecutive_failures) ⊎ (is_repeating_pattern g ≡ true))
      → should_escalate g ≡ true
  unfolding should_escalate
  should_escalate-of_cases g h = ground arith

  -- Whatever calls were tracked, in batches of any size, and whatever failed, succeeded or was reset
  -- between them, a new guard asks for escalation exactly if the failures since the last reset, or
  -- those in a row, have reached their limit, or if the signature of the last call since the last
  -- reset, no empty text, stands at least as often as the repetition threshold among the last
  -- signatures since then, of which there are as many as the window size at most.
  pub escalates_iff :
      (o : Options) (es : List (Event Call))
      → (should_escalate (run to_signature (new o) es) ≡ true → IsLoop (new o) es)
        × (IsLoop (new o) es → should_escalate (run to_signature (new o) es) ≡ true)
  unfolding new
  escalates_iff o es =
      let g = run to_signature (new o) es in
      let (total, row, most, most_in_row) = run-counters to_signature (new o) es in
      let (window, threshold) =
        run-window (new o) [] es (sym (drop-nil (0 - (new o).window_size))) in
      let same : Repeats g.repetition_threshold g.recent_call_signatures
          ≡ Repeats (new o).repetition_threshold (take_last (new o).window_size (history [] es)) =
        λ i. Repeats (threshold i) (window i) in
      (
        λ h. elim (should_escalate-cases g h) [
          | inl many ↦ inl (omega (arith, total, most))
          | inr (inl many) ↦ inr (inl (omega (arith, row, most_in_row)))
          | inr (inr often) ↦ inr (inr (subst (λ T. T) same (is_repeating_pattern-Repeats g often)))
        ],
        λ h. should_escalate-of_cases g (elim h [
          | inl many ↦ inl (omega (arith, total, most))
          | inr (inl many) ↦ inr (inl (omega (arith, row, most_in_row)))
          | inr (inr often) ↦
              inr (inr (Repeats-is_repeating_pattern g (subst (λ T. T) (sym same) often)))
        ]),
      )
