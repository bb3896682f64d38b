-- ===== src/Harness/RetryPolicy/Run/Tests.antt =====
-- An operation that is unavailable for half a second and says when to come back.
use reins_core.Prelude.{
  ℕ, suc, ◌+◌, ◌-◌, ◌^◌, ◌≤◌, ◌<◌, ◌≡◌, refl, ◌⊎◌, true, false, none, some, [], ◌∷◌, ltb, length,
  if◌then◌else◌, arith,
}
use reins_core.Prelude.Text.{units, trim}
use reins_core.Harness.RetryPolicy.Classify.{Thrown, object_with, classify_error}
use reins_core.Harness.RetryPolicy.Backoff.{calculate_backoff}
use reins_core.Harness.RetryPolicy.Run.{resolved, rejected, RetryOptions, returned, retry}
use reins_core.Harness.RetryPolicy.Run.Shapes.{Ended, IsExhaustedAfter}
use reins_core.Harness.RetryPolicy.Run.Ending.{Counts, retry_ends}
use reins_core.Harness.RetryPolicy.Run.Waiting.{sum, Clock, retry_waits}

abbrev unavailable : Thrown
unavailable = record {
  status = some 503;
  status_code = none;
  headers = some (object_with ((units "Retry-After", some (units " 1 ")) ∷ []));
  response_headers = none;
  message = none;
}

-- The world is the time, and the number of calls.
abbrev options : RetryOptions ℕ (ℕ × ℕ)
options = record {
  max_attempts = 3;
  max_duration_ms = 60000;
  backoff = record { base_delay_ms = 1000; max_delay_ms = 30000; jitter = true };
  readers = record { ceil_ms = λ t. some 1000; date_parse = λ t. none };
  fn = λ w. (if ltb w.0 500 then rejected unavailable else resolved 7, (w.0 + 10, suc w.1));
  is_aborted = λ w. false;
  on_retry = λ attempt delay e w. (resolved tt, w);
  sleep = λ delay w. (resolved tt, (w.0 + delay, w.1));
  now = λ w. w.0;
  random = λ w. 0;
}

second_try : ((retry options (0, 0)).0 ≡ returned 7) × ((retry options (0, 0)).1.delays ≡ 1000 ∷ [])
unfolding retry classify_error trim
second_try = (refl, refl)

counts : Counts options (λ w. w.1)
counts = record {
  of_fn = λ w. refl;
  of_on_retry = λ attempt delay e w. refl;
  of_sleep = λ delay w. refl;
}

retry_ends_example :
    Ended options 0 (retry options (0, 0)).0 (retry options (0, 0)).1.world
    × (length (retry options (0, 0)).1.delays ≤ options.max_attempts - 1)
    × ((n : ℕ) × ((retry options (0, 0)).1.world.1 ≡ 0 + n)
        × (n ≤ options.max_attempts)
        × IsExhaustedAfter options (retry options (0, 0)).0 n)
retry_ends_example = retry_ends options (λ w. w.1) counts (0, 0)

clock : Clock options
clock = record {
  of_fn = λ w. omega arith;
  of_on_retry = λ attempt delay e w. omega arith;
  of_sleep = λ delay w. omega arith;
}

retry_waits_example :
    (sum (retry options (0, 0)).1.delays ≡ 0)
    ⊎ (sum (retry options (0, 0)).1.delays < options.max_duration_ms)
retry_waits_example = retry_waits options (0, 0) clock

-- The third delay, with half of the greatest jitter.
third_delay : calculate_backoff 2 options.backoff (2 ^ 52) ≡ 4500
unfolding calculate_backoff
third_delay = refl
