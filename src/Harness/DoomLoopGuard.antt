-- ===== src/Harness/DoomLoopGuard.antt =====
-- src/harness/doom-loop-guard.ts: `DoomLoopGuard`. The signature of a tool call, a text, is the
-- parameter `to_signature` here; Signature.antt has the one that the code builds.
pub mod Signature
pub mod Window
pub mod Escalation
mod Tests
use reins_core.Prelude.{
  ℕ, ◌+◌, String, Bool, true, false, ◌||◌, not, Option, none, some, List, [], ◌∷◌, ◌++◌, map, leb,
  ltb, str_eq, if◌then◌else◌, length, count, take_last, drop, get_last?, ◌-◌,
}
use reins_core.Prelude.Numbers.{Number, resolve_limit}

pub record Options : Type 0 where
  pub max_consecutive_failures : Option Number
  pub max_total_failures : Option Number
  pub window_size : Option Number
  pub repetition_threshold : Option Number

pub record DoomLoopGuard : Type 0 where
  pub max_consecutive_failures : ℕ
  pub max_total_failures : ℕ
  pub window_size : ℕ
  pub repetition_threshold : ℕ
  pub consecutive_failures : ℕ
  pub total_failures : ℕ
  pub recent_call_signatures : List String

unfoldable pub new : Options → DoomLoopGuard
unfolding resolve_limit
new o = record {
  max_consecutive_failures = resolve_limit o.max_consecutive_failures 3;
  max_total_failures = resolve_limit o.max_total_failures 5;
  window_size = resolve_limit o.window_size 10;
  repetition_threshold = resolve_limit o.repetition_threshold 3;
  consecutive_failures = 0;
  total_failures = 0;
  recent_call_signatures = [];
}

-- The loop pushes each signature; the overflow is then spliced off the front.
pub track {ℓ} : {Call : Type ℓ} → (Call → String) → DoomLoopGuard → List Call → DoomLoopGuard
track to_signature g tool_calls =
    let pushed = g.recent_call_signatures ++ map to_signature tool_calls in
    record g { recent_call_signatures = drop (length pushed - g.window_size) pushed }

pub record_failure : DoomLoopGuard → DoomLoopGuard
record_failure g = record g {
  consecutive_failures = g.consecutive_failures + 1;
  total_failures = g.total_failures + 1;
}

pub record_success : DoomLoopGuard → DoomLoopGuard
record_success g = record g { consecutive_failures = 0 }

pub reset_turn : DoomLoopGuard → DoomLoopGuard
reset_turn g = record g {
  consecutive_failures = 0;
  total_failures = 0;
  recent_call_signatures = [];
}

pub reset : DoomLoopGuard → DoomLoopGuard
reset g = record g { consecutive_failures = 0; total_failures = 0; recent_call_signatures = [] }

-- How often the last signature stands in the window. An empty text is falsy.
repeats : Option String → ℕ → List String → Bool
repeats none threshold signatures = false
repeats (some last) threshold signatures =
    if str_eq last ""
    then false
    else leb threshold (count (λ signature. str_eq signature last) signatures)

pub is_repeating_pattern : DoomLoopGuard → Bool
unfolding repeats
is_repeating_pattern g =
    if ltb (length g.recent_call_signatures) g.repetition_threshold
    then false
    else repeats (get_last? g.recent_call_signatures) g.repetition_threshold
        g.recent_call_signatures

pub should_escalate : DoomLoopGuard → Bool
unfolding is_repeating_pattern
should_escalate g =
    leb g.max_consecutive_failures g.consecutive_failures
    || leb g.max_total_failures g.total_failures
    || is_repeating_pattern g

pub get_failure_count : DoomLoopGuard → ℕ
get_failure_count g = g.total_failures
