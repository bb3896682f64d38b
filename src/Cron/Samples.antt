-- ===== src/Cron/Samples.antt =====
-- Concrete functions for the parameters of the cron modules, for tests.
use reins_core.Prelude.{
  ℕ, ◌+◌, ◌-◌, ◌*◌, ◌/◌, ◌%◌, Bool, true, ◌&&◌, Option, none, some, List, [], ◌∷◌, leb,
  if◌then◌else◌, zero, suc,
}
use reins_core.Prelude.Text.{Text, units}
use reins_core.Cron.NextRun.{PartKind, minute, hour, day, month, weekday}

-- `Number(text)` on decimal digits.
digits : ℕ → Text → Option ℕ
digits n [] = some n
digits n (c ∷ cs) =
    let rest = digits (n * 10 + (c - b'0')) cs in if leb b'0' c && leb c b'9' then rest else none

unfoldable pub decimal : Text → Option ℕ
unfolding digits
decimal [] = none
decimal (c ∷ cs) = digits 0 (c ∷ cs)

abbrev weekdays : ℕ → Text
weekdays zero = units "Thu"
weekdays (suc zero) = units "Fri"
weekdays (suc (suc zero)) = units "Sat"
weekdays (suc (suc (suc zero))) = units "Sun"
weekdays (suc (suc (suc (suc zero)))) = units "Mon"
weekdays (suc (suc (suc (suc (suc zero))))) = units "Tue"
weekdays _ = units "Wed"

two_digits : ℕ → Text
two_digits n = (b'0' + n / 10) ∷ (b'0' + n % 10) ∷ []

-- What a formatter for UTC gives in January 1970, which began on a Thursday.
unfoldable pub january : Text → ℕ → Option (List (PartKind × Text))
unfolding two_digits
january timezone t =
    let days = t / 86400000 in
    some (
      (weekday, weekdays (days % 7))
      ∷ (month, units "1")
      ∷ (day, two_digits (days + 1))
      ∷ (hour, two_digits (t / 3600000 % 24))
      ∷ (minute, two_digits (t / 60000 % 60))
      ∷ [])

abbrev pub any_zone : Text → Bool
any_zone timezone = true
