-- ===== src/Harness/RetryPolicy/Run/Ending.antt =====
-- How `retry` ends, and how often it waits before.
use reins_core.Prelude.{
  ℕ, zero, suc, ◌+◌, ◌-◌, ◌≤◌, ◌<◌, ◌≡◌, refl, sym, ap, ◌∙◌, subst, ◌⊎◌, inl, inr, length, arith,
}
use reins_core.Harness.RetryPolicy.Classify.{Thrown}
use reins_core.Harness.RetryPolicy.Run.{
  RetryOptions, Outcome, State, Round, goes_on, stops, round, loop, initial, retry,
}
use reins_core.Harness.RetryPolicy.Run.Shapes.{
  Ended, LastIsRetried, IsExhaustedAfter, told, Shape, shape_on, shape_end, round-Shape,
}

module _ {A W : Type 0} (options : RetryOptions A W) where
  -- A count of the calls of the operation, which the callback and the sleep do not make.
  pub record Counts (calls : W → ℕ) : Type 0 where
    pub of_fn : (w : W) → calls (options.fn w).1 ≡ suc (calls w)
    pub of_on_retry :
        (attempt delay : ℕ) (e : Thrown) (w : W)
        → calls (options.on_retry attempt delay e w).1 ≡ calls w
    pub of_sleep : (delay : ℕ) (w : W) → calls (options.sleep delay w).1 ≡ calls w

  module _ (start_time : ℕ) where
    -- A world after the call of a round is one call on.
    called_once :
        (s : State A W) (w : W) (calls : W → ℕ)
        → Counts calls
        → (w ≡ (options.fn s.world).1)
          ⊎ (((delay : ℕ) × (e : Thrown) × (w ≡ (told options start_time s delay e).1))
              ⊎ ((delay : ℕ) × (e : Thrown) × (w
                    ≡ (options.sleep delay (told options start_time s delay e).1).1)))
        → calls w ≡ suc (calls s.world)
    called_once s w calls counts (inl same) = ap calls same ∙ counts.of_fn s.world
    called_once s w calls counts (inr (inl (delay, e, same))) =
        ap calls same
        ∙ counts.of_on_retry (suc s.attempt) delay e (options.fn s.world).1
        ∙ counts.of_fn s.world
    called_once s w calls counts (inr (inr (delay, e, same))) =
        ap calls same
        ∙ counts.of_sleep delay (told options start_time s delay e).1
        ∙ counts.of_on_retry (suc s.attempt) delay e (options.fn s.world).1
        ∙ counts.of_fn s.world

    -- The rounds of a run of the loop.
    pub data Rounds : State A W → Outcome A → State A W → Type 0 where
      last :
          (s s' : State A W) (outcome : Outcome A)
          → Shape options start_time s (stops outcome s')
          → Rounds s outcome s'
      more :
          (s next s' : State A W) (outcome : Outcome A)
          → Shape options start_time s (goes_on next)
          → Rounds next outcome s'
          → Rounds s outcome s'

    abbrev continued : ℕ → Round A W → Outcome A × State A W
    continued fuel r = elim r [
      | goes_on s' ↦ loop options start_time fuel s'
      | stops outcome s' ↦ (outcome, s')
    ]

    continued-Rounds :
        (fuel : ℕ) (s : State A W) (r : Round A W)
        → Shape options start_time s r
        → options.max_attempts < s.attempt + suc fuel
        → ((next : State A W)
            → LastIsRetried options next.attempt next.last_error
            → next.attempt < options.max_attempts
            → options.max_attempts < next.attempt + fuel
            → Rounds next
                (loop options start_time fuel next).0
                (loop options start_time fuel next).1)
        → Rounds s (continued fuel r).0 (continued fuel r).1
    continued-Rounds fuel s _
          (shape_on e delay next retried room attempt last_error delays early world) enough rest =
        let before : LastIsRetried options next.attempt next.last_error =
          subst (λ n. LastIsRetried options n next.last_error) (sym attempt)
            (e, last_error, retried) in
        more s next _ _ (shape_on e delay next retried room attempt last_error delays early world)
          (rest next before (omega (arith, attempt)) (omega (arith, attempt)))
    continued-Rounds fuel s _ (shape_end outcome s' ended at delays) enough rest =
        last s s' outcome (shape_end outcome s' ended at delays)

    loop-Rounds :
        (fuel : ℕ) (s : State A W)
        → LastIsRetried options s.attempt s.last_error
        → (s.attempt < options.max_attempts) ⊎ (s.attempt ≡ 0)
        → options.max_attempts < s.attempt + fuel
        → Rounds s (loop options start_time fuel s).0 (loop options start_time fuel s).1
    unfolding loop
    loop-Rounds zero s retried within enough = absurd (ground arith)
    loop-Rounds (suc fuel) s retried within enough =
        continued-Rounds fuel s (round options start_time s)
          (round-Shape options start_time s retried within) enough
          (λ next before room enough'. loop-Rounds fuel next before (inl room) enough')

    Rounds-Ended :
        (s s' : State A W) (outcome : Outcome A)
        → Rounds s outcome s'
        → length s.delays ≡ s.attempt
        → (s.attempt < options.max_attempts) ⊎ (s.attempt ≡ 0)
        → Ended options start_time outcome s'.world × (length s'.delays ≤ options.max_attempts - 1)
    Rounds-Ended s s' outcome (last _ _ _ (shape_end _ _ ended at delays)) counted within =
        (ended, ground (arith, counted, ap length delays))
    Rounds-Ended s s' outcome
          (more _ next _ _
            (shape_on e delay _ retried room attempt last_error delays early world)
            rounds)
          counted within =
        Rounds-Ended next s' outcome rounds (omega (arith, attempt, ap length delays, counted))
          (inl (omega (arith, attempt)))

    -- The calls of the rounds, and the number of attempts that an end as exhausted tells.
    Rounds-calls :
        (s s' : State A W) (outcome : Outcome A) (calls : W → ℕ) (before : ℕ)
        → Counts calls
        → Rounds s outcome s'
        → calls s.world ≡ before + s.attempt
        → s.attempt ≤ options.max_attempts
        → (n : ℕ) × (calls s'.world ≡ before + n)
          × (n ≤ options.max_attempts)
          × IsExhaustedAfter options outcome n
    Rounds-calls s s' outcome calls before counts
          (last _ _ _ (shape_end _ _ ended (inl (same, told)) delays)) counted within =
        (s.attempt, ap calls same ∙ counted, within, told)
    Rounds-calls s s' outcome calls before counts
          (last _ _ _ (shape_end _ _ ended (inr (told, room, at)) delays)) counted within =
        (suc s.attempt, omega (arith, counted, called_once s s'.world calls counts at), room, told)
    Rounds-calls s s' outcome calls before counts
          (more _ next _ _
            (shape_on e delay _ retried room attempt last_error delays early world)
            rounds)
          counted within =
        let once = called_once s next.world calls counts (inr (inr (delay, e, world))) in
        Rounds-calls next s' outcome calls before counts rounds
          (omega (arith, once, counted, attempt)) (omega (arith, attempt))

  pub retry-Rounds :
      (w : W) → Rounds (options.now w) (initial options w) (retry options w).0 (retry options w).1
  unfolding retry
  retry-Rounds w =
      loop-Rounds (options.now w) (suc options.max_attempts) (initial options w) tt (inr refl)
        (omega arith)

  -- Where calls of the operation are counted, by a count that the callback and the sleep leave alone: a
  -- retry ends, whatever the operation does, after at most as many calls as attempts are allowed and
  -- at most one wait less than that: with what its last call gave, a value or an error that is
  -- classified as one not to retry; as exhausted, with an error that is one to retry and the number
  -- of the calls made, which are all that are allowed unless the time for them is over, or would be
  -- over after the delay to come; aborted by the signal; with what the callback or the sleep threw;
  -- and after the loop only if no attempt is allowed.
  pub retry_ends :
      (calls : W → ℕ)
      → Counts calls
      → (w : W)
      → Ended options (options.now w) (retry options w).0 (retry options w).1.world
        × (length (retry options w).1.delays ≤ options.max_attempts - 1)
        × ((n : ℕ) × (calls (retry options w).1.world ≡ calls w + n)
            × (n ≤ options.max_attempts)
            × IsExhaustedAfter options (retry options w).0 n)
  retry_ends calls counts w =
      let rounds = retry-Rounds w in
      let (ended, waits) =
        Rounds-Ended (options.now w) (initial options w) (retry options w).1 (retry options w).0
          rounds refl (inr refl) in
      (
        ended,
        waits,
        Rounds-calls (options.now w) (initial options w) (retry options w).1 (retry options w).0
            calls (calls w) counts rounds (omega arith) (omega arith),
      )
