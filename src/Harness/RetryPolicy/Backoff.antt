-- ===== src/Harness/RetryPolicy/Backoff.antt =====
-- `calculateBackoff`. A random number of [0, 1) is given by its numerator over 2 ^ 53, and the product
-- with it is exact.
use reins_core.Prelude.{ℕ, ◌+◌, ◌*◌, ◌/◌, ◌^◌, ◌-◌, min, Bool, if◌then◌else◌}

pub record BackoffOptions : Type 0 where
  pub base_delay_ms : ℕ
  pub max_delay_ms : ℕ
  pub jitter : Bool

abbrev pub random_unit : ℕ
random_unit = 2 ^ 53

-- `Math.ceil` of the quarter of a product.
abbrev quarter_of : ℕ → ℕ
quarter_of product = (product + (4 * random_unit - 1)) / (4 * random_unit)

abbrev pub capped_delay : BackoffOptions → (attempt : ℕ) → ℕ
capped_delay options attempt = min (options.base_delay_ms * 2 ^ attempt) options.max_delay_ms

unfoldable pub calculate_backoff : (attempt : ℕ) → BackoffOptions → (random : ℕ) → ℕ
calculate_backoff attempt options random =
    if options.jitter
    then capped_delay options attempt + quarter_of (capped_delay options attempt * random)
    else capped_delay options attempt
