-- ===== src/Prelude/Numbers.antt =====
-- JavaScript numbers given as settings, as far as `Number.isFinite` and `Math.floor` see them.
use Prim.Native.Nat.{ℕ, max, ◌≤◌}
use mathlib.Core.Option.{Option, none, some}
use native.Mathlib.Omega.{arith}

-- `finite n` is a number whose floor is n; `negative` is a finite number below zero.
pub data Number : Type 0 where
  not_finite negative : Number
  finite : (floor : ℕ) → Number

-- `Math.max(1, Math.floor(candidate))`, or the fallback where there is no finite number.
unfoldable pub resolve_limit : Option Number → ℕ → ℕ
resolve_limit none fallback = fallback
resolve_limit (some not_finite) fallback = fallback
resolve_limit (some negative) fallback = 1
resolve_limit (some (finite floor)) fallback = max 1 floor

pub resolve_limit_pos :
    (candidate : Option Number) (fallback : ℕ) → 1 ≤ fallback → 1 ≤ resolve_limit candidate fallback
unfolding resolve_limit
resolve_limit_pos none fallback h = h
resolve_limit_pos (some not_finite) fallback h = h
resolve_limit_pos (some negative) fallback h = omega arith
resolve_limit_pos (some (finite floor)) fallback h = omega arith
