-- ===== src/Prelude/Decimal.antt =====
-- How JavaScript writes a whole number in a template, as long as it does not take an exponent.
use Prim.Native.Nat.{ℕ, zero, suc, ◌+◌, ◌-◌, ◌*◌, ◌/◌, ◌%◌, ◌<◌}
use mathlib.Core.Path.{◌≡◌, ap, sym, ◌∙◌}
use mathlib.Core.List.{[], ◌∷◌}
use mathlib.Core.Logic.{inl, inr}
use native.Mathlib.Omega.{arith}
use reins_core.Prelude.Tests.{ltb, if◌then◌else◌, Bool-cases}
use reins_core.Prelude.Text.{Text}

-- The digits of a number before those that are there; one unit of fuel for each digit.
show_from : (fuel : ℕ) → ℕ → Text → Text
show_from zero n digits = digits
show_from (suc fuel) n digits =
    let rest = show_from fuel (n / 10) ((48 + n % 10) ∷ digits) in
    if ltb n 10 then (48 + n) ∷ digits else rest

unfoldable pub show : ℕ → Text
unfolding show_from
show n = show_from (suc n) n []

read_from : ℕ → Text → ℕ
read_from value [] = value
read_from value (c ∷ cs) = read_from (value * 10 + (c - 48)) cs

read-show_from :
    (fuel n : ℕ) (digits : Text)
    → n < fuel
    → read_from 0 (show_from fuel n digits) ≡ read_from n digits
unfolding show_from read_from
read-show_from zero n digits h = absurd (omega arith)
read-show_from (suc fuel) n digits h = elim (Bool-cases (ltb n 10)) [
  | inl short ↦ rw short (ap (λ m. read_from m digits) (omega arith))
  | inr long ↦ rw long (
      read-show_from fuel (n / 10) ((48 + n % 10) ∷ digits) (ground arith)
      ∙ ap (λ m. read_from m digits) (omega arith))
]

pub show_inj : (m n : ℕ) → show m ≡ show n → m ≡ n
unfolding show read_from
show_inj m n e =
    sym (read-show_from (suc m) m [] (omega arith))
    ∙ ap (read_from 0) e
    ∙ read-show_from (suc n) n [] (omega arith)
