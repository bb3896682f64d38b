-- ===== src/Harness/RetryPolicy/Run/Shapes.antt =====
-- What a round of `retry` makes of its state.
use reins_core.Prelude.{
  ℕ, zero, suc, ◌+◌, ap, ◌≤◌, ◌<◌, ◌≡◌, refl, ◌⊎◌, inl, inr, true, false, ◌&&◌, Option, some, ◌∷◌,
  leb, ltb, arith, Bool-cases,
}
use reins_core.Harness.RetryPolicy.Classify.{Thrown, classify_error}
use reins_core.Harness.RetryPolicy.Run.{
  Settled, resolved, rejected, RetryOptions, Outcome, returned, not_retryable, exhausted, aborted,
  interrupted, failed, out_of_fuel, State, Round, goes_on, stops, reaches_cap, delay_for,
  after_sleep, after_callback, after_failure, after_call, round,
}

Settled-cases :
    {A : Type 0} (x : Settled A) → ((v : A) × (x ≡ resolved v)) ⊎ ((e : Thrown) × (x ≡ rejected e))
Settled-cases (resolved v) = inl (v, refl)
Settled-cases (rejected e) = inr (e, refl)

-- A pair by its first part.
pair_path : {A B : Type 0} {p : A × B} {a : A} → p.0 ≡ a → p ≡ (a, p.1)
pair_path {p} h = ap (λ x. (x, p.1)) h

module _ {A W : Type 0} (options : RetryOptions A W) where
  -- An error that was classified as one to retry, at some time.
  abbrev pub IsRetried : Thrown → Type 0
  IsRetried e = (now : ℕ) × ((classify_error options.readers e now).retryable ≡ true)

  -- The error of the attempt before.
  abbrev pub LastIsRetried : (attempt : ℕ) → Option Thrown → Type 0
  LastIsRetried zero last_error = Unit
  LastIsRetried (suc n) last_error = (e : Thrown) × (last_error ≡ some e) × IsRetried e

  -- A retry that ends as exhausted made this many calls.
  abbrev pub IsExhaustedAfter : Outcome A → ℕ → Type 0
  IsExhaustedAfter (exhausted last_error attempts) n = attempts ≡ n
  IsExhaustedAfter _ n = Unit

  module _ (start_time : ℕ) where
    -- Why no further attempt is made after an error: all are used up, the time is over, or it would
    -- be over after the delay that the error and the number of attempts call for.
    abbrev pub IsUsedUp : Thrown → (attempts : ℕ) → W → Type 0
    IsUsedUp e attempts w =
        (attempts ≡ options.max_attempts)
        ⊎ ((start_time + options.max_duration_ms ≤ options.now w)
            ⊎ ((n : ℕ) × (attempts ≡ suc n)
                × (start_time + options.max_duration_ms
                    ≤ options.now w
                      + delay_for options start_time
                          (classify_error options.readers e (options.now w)) n w)))

    -- What an end in a world says of what happened.
    abbrev pub Ended : Outcome A → W → Type 0
    Ended (returned v) w = (v' : W) × (options.fn v' ≡ (resolved v, w))
    Ended (not_retryable e) w =
        ((v : W) × (options.fn v ≡ (rejected e, w)))
        × ((classify_error options.readers e (options.now w)).retryable ≡ false)
    Ended (exhausted last_error attempts) w =
        (e : Thrown) × (last_error ≡ some e)
        × IsRetried e
        × (1 ≤ attempts)
        × (attempts ≤ options.max_attempts)
        × IsUsedUp e attempts w
    Ended aborted w = options.is_aborted w ≡ true
    Ended (interrupted thrown) w =
        ((attempt delay : ℕ) × (e : Thrown) × (v : W) × (options.on_retry attempt delay e v
            ≡ (rejected thrown, w)))
        ⊎ ((delay : ℕ) × (v : W) × (options.sleep delay v ≡ (rejected thrown, w)))
    Ended (failed last_error) w = options.max_attempts ≡ 0
    Ended out_of_fuel w = ⊥

    -- What the callback and the sleep are asked for after the call of a round.
    abbrev pub told : State A W → (delay : ℕ) → Thrown → Settled (Unit {0}) × W
    told s delay e = options.on_retry (suc s.attempt) delay e (options.fn s.world).1

    -- Where a round ends: before its call, after it, after the callback or after the sleep.
    abbrev pub EndsAt : State A W → Outcome A → W → Type 0
    EndsAt s outcome w =
        ((w ≡ s.world) × IsExhaustedAfter outcome s.attempt)
        ⊎ (IsExhaustedAfter outcome (suc s.attempt)
            × (suc s.attempt ≤ options.max_attempts)
            × ((w ≡ (options.fn s.world).1)
                ⊎ (((delay : ℕ) × (e : Thrown) × (w ≡ (told s delay e).1))
                    ⊎ ((delay : ℕ) × (e : Thrown) × (w
                          ≡ (options.sleep delay (told s delay e).1).1)))))

    -- A round that goes on made a call that failed with an error to retry, and waited.
    pub data Shape (s : State A W) : Round A W → Type 0 where
      shape_on :
          (e : Thrown) (delay : ℕ) (next : State A W)
          → IsRetried e
          → suc s.attempt < options.max_attempts
          → next.attempt ≡ suc s.attempt
          → next.last_error ≡ some e
          → next.delays ≡ delay ∷ s.delays
          → reaches_cap options start_time (options.fn s.world).1 delay ≡ false
          → next.world
            ≡ (options.sleep delay
                (options.on_retry (suc s.attempt) delay e (options.fn s.world).1).1).1
          → Shape s (goes_on next)
      shape_end :
          (outcome : Outcome A) (s' : State A W)
          → Ended outcome s'.world
          → EndsAt s outcome s'.world
          → s'.delays ≡ s.delays
          → Shape s (stops outcome s')

    abbrev called : State A W → State A W
    called s = record s { world = (options.fn s.world).1 }

    after_sleep-Shape :
        (slept : Settled (Unit {0})) (e : Thrown) (delay : ℕ) (last : Option Thrown) (s : State A W)
        → (options.sleep delay (told s delay e).1).0 ≡ slept
        → IsRetried e
        → suc s.attempt < options.max_attempts
        → reaches_cap options start_time (options.fn s.world).1 delay ≡ false
        → Shape s (
            after_sleep options start_time slept delay e
              (record (called s) { last_error = last })
              (options.sleep delay (told s delay e).1).1)
    after_sleep-Shape (rejected thrown) e delay last s h retried room early =
        shape_end (interrupted thrown) _ (inr (delay, (told s delay e).1, pair_path h))
          (inr (tt, omega arith, inr (inr (delay, e, refl)))) refl
    after_sleep-Shape (resolved done) e delay last s h retried room early =
        shape_on e delay _ retried room refl refl refl early refl

    after_callback-Shape :
        (answer : Settled (Unit {0})) (e : Thrown) (delay : ℕ) (last : Option Thrown)
        (s : State A W)
        → (told s delay e).0 ≡ answer
        → IsRetried e
        → suc s.attempt < options.max_attempts
        → reaches_cap options start_time (options.fn s.world).1 delay ≡ false
        → Shape s (
            after_callback options start_time answer delay e
              (record (called s) { last_error = last })
              (told s delay e).1)
    after_callback-Shape (rejected thrown) e delay last s h retried room early =
        shape_end (interrupted thrown) _
          (inl (suc s.attempt, delay, e, (options.fn s.world).1, pair_path h))
          (inr (tt, omega arith, inr (inl (delay, e, refl)))) refl
    after_callback-Shape (resolved done) e delay last s h retried room early =
        after_sleep-Shape (options.sleep delay (told s delay e).1).0 e delay last s refl retried
          room early

    after_failure-Shape :
        (e : Thrown) (s : State A W)
        → (options.fn s.world).0 ≡ rejected e
        → s.attempt < options.max_attempts
        → Shape s (after_failure options start_time e (record (called s) { last_error = some e }))
    unfolding after_failure
    after_failure-Shape e s h room =
        let w = (options.fn s.world).1 in
        let now = options.now w in
        let delay =
          delay_for options start_time (classify_error options.readers e now) s.attempt w in
        elim (Bool-cases (classify_error options.readers e now).retryable) [
          | inr refused ↦ rw refused (
              shape_end _ _ ((s.world, pair_path h), refused) (inr (tt, omega arith, inl refl))
                refl)
          | inl retried ↦ rw retried (elim (Bool-cases (leb options.max_attempts (suc s.attempt))) [
            | inl last ↦ rw last (
                shape_end _ _
                  (e, refl, (now, retried), omega arith, omega arith, inl (ground arith))
                  (inr (refl, omega arith, inl refl)) refl)
            | inr more ↦ rw more (elim (Bool-cases (reaches_cap options start_time w delay)) [
              | inl late ↦ rw late (
                  shape_end _ _
                    (
                      e,
                      refl,
                      (now, retried),
                      omega arith,
                      omega arith,
                      inr (inr (s.attempt, refl, ground arith)),
                    )
                    (inr (refl, omega arith, inl refl)) refl)
              | inr early ↦ rw early (
                  after_callback-Shape (told s delay e).0 e delay (some e) s refl (now, retried)
                    (ground arith) early)
            ])
          ])
        ]

    after_call-Shape :
        (settled : Settled A) (s : State A W)
        → (options.fn s.world).0 ≡ settled
        → s.attempt < options.max_attempts
        → Shape s (after_call options start_time settled (called s))
    after_call-Shape (resolved v) s h room =
        shape_end _ _ (s.world, pair_path h) (inr (tt, omega arith, inl refl)) refl
    after_call-Shape (rejected e) s h room = after_failure-Shape e s h room

    last_error-Ended :
        (attempt : ℕ) (last_error : Option Thrown) (w : W)
        → LastIsRetried attempt last_error
        → 0 < attempt
        → attempt ≤ options.max_attempts
        → start_time + options.max_duration_ms ≤ options.now w
        → Ended (exhausted last_error attempt) w
    last_error-Ended zero last_error w h pos within late = absurd (omega arith)
    last_error-Ended (suc n) last_error w (e, same, retried) pos within late =
        (e, same, retried, omega arith, within, inr (inl late))

    pub round-Shape :
        (s : State A W)
        → LastIsRetried s.attempt s.last_error
        → (s.attempt < options.max_attempts) ⊎ (s.attempt ≡ 0)
        → Shape s (round options start_time s)
    unfolding round
    round-Shape s retried within = elim (Bool-cases (ltb s.attempt options.max_attempts)) [
      | inr none_left ↦ rw none_left (shape_end _ _ (ground arith) (inl (refl, tt)) refl)
      | inl room ↦ rw room (elim (Bool-cases (options.is_aborted s.world)) [
        | inl gone ↦ rw gone (shape_end _ _ gone (inl (refl, tt)) refl)
        | inr here ↦
            rw here
              (elim (Bool-cases (ltb 0 s.attempt && reaches_cap options start_time s.world 0)) [
                | inl late ↦ rw late (
                    shape_end _ _
                      (last_error-Ended s.attempt s.last_error s.world retried (ground arith)
                        (ground arith) (ground arith))
                      (inl (refl, refl)) refl)
                | inr early ↦
                    rw early (after_call-Shape (options.fn s.world).0 s refl (ground arith))
              ])
      ])
    ]
