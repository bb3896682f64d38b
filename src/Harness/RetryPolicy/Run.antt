-- ===== src/Harness/RetryPolicy/Run.antt =====
-- `retry`: one round of its loop, and the loop, which has one unit of fuel for each attempt and one
-- for its end. The state also keeps the delays that were slept.
pub mod Shapes
pub mod Ending
pub mod Waiting
mod Tests
use reins_core.Prelude.{
  ℕ, zero, suc, ◌+◌, Bool, true, false, ◌&&◌, Option, none, some, List, [], ◌∷◌, leb, ltb,
  if◌then◌else◌, or_else,
}
use reins_core.Harness.RetryPolicy.Classify.{Thrown, Readers, RetryClassification, classify_error}
use reins_core.Harness.RetryPolicy.Backoff.{BackoffOptions, calculate_backoff}

-- What an awaited call comes to.
pub data Settled (A : Type 0) : Type 0 where
  resolved : A → Settled A
  rejected : Thrown → Settled A

-- `on_retry` may be a callback that does nothing; the world's `random` is the numerator for the next
-- delay.
pub record RetryOptions (A W : Type 0) : Type 0 where
  pub max_attempts : ℕ
  pub max_duration_ms : ℕ
  pub backoff : BackoffOptions
  pub readers : Readers
  pub fn : W → Settled A × W
  pub is_aborted : W → Bool
  pub on_retry : (attempt delay : ℕ) → Thrown → W → Settled (Unit {0}) × W
  pub sleep : (delay : ℕ) → W → Settled (Unit {0}) × W
  pub now : W → ℕ
  pub random : W → ℕ

-- How `retry` ends: with the value, with the error that is not to be retried, as exhausted after some
-- attempts, as aborted, with what the callback or the sleep threw, or after the loop.
pub data Outcome (A : Type 0) : Type 0 where
  returned : A → Outcome A
  not_retryable : Thrown → Outcome A
  exhausted : (last_error : Option Thrown) → (attempts : ℕ) → Outcome A
  aborted : Outcome A
  interrupted : Thrown → Outcome A
  failed : (last_error : Option Thrown) → Outcome A
  out_of_fuel : Outcome A

module _ (A W : Type 0) where
  pub record State : Type 0 where
    pub attempt : ℕ
    pub last_error : Option Thrown
    pub delays : List ℕ
    pub world : W

  pub data Round : Type 0 where
    goes_on : State → Round
    stops : Outcome A → State → Round

module _ {A W : Type 0} (options : RetryOptions A W) (start_time : ℕ) where
  -- Whether the time of a world, later by the delay, reaches the cap on the duration.
  abbrev pub reaches_cap : W → (delay : ℕ) → Bool
  reaches_cap w delay = leb (start_time + options.max_duration_ms) (options.now w + delay)

  abbrev is_retry : ℕ → Bool
  is_retry attempt = ltb 0 attempt

  abbrev pub delay_for : RetryClassification → ℕ → W → ℕ
  delay_for classification attempt w =
      or_else classification.retry_after_ms
        (calculate_backoff attempt options.backoff (options.random w))

  -- The callback and the sleep, each by what it came to.
  abbrev pub after_sleep : Settled (Unit {0}) → (delay : ℕ) → Thrown → State A W → W → Round A W
  after_sleep (rejected thrown) delay error s w =
      stops (interrupted thrown) (record s { world = w })
  after_sleep (resolved _) delay error s w = goes_on (record {
    attempt = suc s.attempt;
    last_error = some error;
    delays = delay ∷ s.delays;
    world = w;
  })

  abbrev pub after_callback : Settled (Unit {0}) → (delay : ℕ) → Thrown → State A W → W → Round A W
  after_callback (rejected thrown) delay error s w =
      stops (interrupted thrown) (record s { world = w })
  after_callback (resolved _) delay error s w =
      let (slept, w') = options.sleep delay w in after_sleep slept delay error s w'

  abbrev pub wait : (delay : ℕ) → Thrown → State A W → Round A W
  wait delay error s =
      let (told, w) = options.on_retry (suc s.attempt) delay error s.world in
      after_callback told delay error s w

  -- The `catch` block, with the error as the last one.
  unfoldable pub after_failure : Thrown → State A W → Round A W
  after_failure error s =
      let classification = classify_error options.readers error (options.now s.world) in
      let delay = delay_for classification s.attempt s.world in
      if classification.retryable
      then (if leb options.max_attempts (suc s.attempt)
          then stops (exhausted (some error) (suc s.attempt)) s
          else if reaches_cap s.world delay
          then stops (exhausted (some error) (suc s.attempt)) s
          else wait delay error s)
      else stops (not_retryable error) s

  abbrev after_call : Settled A → State A W → Round A W
  after_call (resolved v) s = stops (returned v) s
  after_call (rejected error) s = after_failure error (record s { last_error = some error })

  unfoldable pub round : State A W → Round A W
  unfolding after_failure
  round s =
      if ltb s.attempt options.max_attempts
      then (if options.is_aborted s.world
          then stops aborted s
          else if is_retry s.attempt && reaches_cap s.world 0
          then stops (exhausted s.last_error s.attempt) s
          else let (settled, w) = options.fn s.world in after_call settled (record s { world = w }))
      else stops (failed s.last_error) s

  unfoldable pub loop : (fuel : ℕ) → State A W → Outcome A × State A W
  unfolding round
  loop zero s = (out_of_fuel, s)
  loop (suc fuel) s = elim (round s) [
    | goes_on s' ↦ loop fuel s'
    | stops outcome s' ↦ (outcome, s')
  ]

module _ {A W : Type 0} (options : RetryOptions A W) where
  abbrev pub initial : W → State A W
  initial w = record { attempt = 0; last_error = none; delays = []; world = w }

  unfoldable pub retry : W → Outcome A × State A W
  unfolding loop
  retry w = loop options (options.now w) (suc options.max_attempts) (initial w)
