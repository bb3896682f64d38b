-- ===== src/Harness/RetryPolicy/Run/Waiting.antt =====
-- How long `retry` waits in all.
use reins_core.Prelude.{
  ℕ, suc, ◌+◌, ◌≤◌, ◌<◌, ◌≡◌, refl, sym, ap, subst, ◌⊎◌, inl, inr, List, [], ◌∷◌, arith,
}
use reins_core.Harness.RetryPolicy.Classify.{Thrown}
use reins_core.Harness.RetryPolicy.Run.{RetryOptions, Outcome, State, initial, retry}
use reins_core.Harness.RetryPolicy.Run.Shapes.{shape_on, shape_end}
use reins_core.Harness.RetryPolicy.Run.Ending.{Rounds, last, more, retry-Rounds}

abbrev pub sum : List ℕ → ℕ
sum [] = 0
sum (n ∷ ns) = n + sum ns

module _ {A W : Type 0} (options : RetryOptions A W) where
  -- The clock does not go back, and a sleep takes at least its delay.
  pub record Clock : Type 0 where
    pub of_fn : (w : W) → options.now w ≤ options.now (options.fn w).1
    pub of_on_retry :
        (attempt delay : ℕ) (e : Thrown) (w : W)
        → options.now w ≤ options.now (options.on_retry attempt delay e w).1
    pub of_sleep :
        (delay : ℕ) (w : W) → options.now w + delay ≤ options.now (options.sleep delay w).1

  Rounds-waited :
      (start_time : ℕ) (s s' : State A W) (outcome : Outcome A)
      → Clock
      → Rounds options start_time s outcome s'
      → start_time + sum s.delays ≤ options.now s.world
      → (sum s.delays ≡ 0) ⊎ (sum s.delays < options.max_duration_ms)
      → (sum s'.delays ≡ 0) ⊎ (sum s'.delays < options.max_duration_ms)
  Rounds-waited start_time s s' outcome clock (last _ _ _ (shape_end _ _ ended at delays)) elapsed
        waited =
      ground (arith, ap sum delays)
  Rounds-waited start_time s s' outcome clock
        (more _ next _ _
          (shape_on e delay _ retried room attempt last_error delays early world)
          rounds)
        elapsed waited =
      let w = (options.fn s.world).1 in
      let v = (options.on_retry (suc s.attempt) delay e w).1 in
      let later : options.now v + delay ≤ options.now next.world =
        subst (λ u. options.now v + delay ≤ options.now u) (sym world) (clock.of_sleep delay v) in
      let mono = clock.of_fn s.world in
      let mono' = clock.of_on_retry (suc s.attempt) delay e w in
      let total : sum next.delays ≡ delay + sum s.delays = ap sum delays in
      let before : options.now w + delay < start_time + options.max_duration_ms =
        ground (arith, early) in
      Rounds-waited start_time next s' outcome clock rounds
        (omega (arith, later, mono, mono', total, elapsed))
        (inr (omega (arith, before, mono, total, elapsed)))

  -- If the clock does not go back and a sleep takes at least its delay, the delays of a retry are
  -- together shorter than the allowed duration, or nothing, whatever delays the errors ask for.
  pub retry_waits :
      (w : W)
      → Clock
      → (sum (retry options w).1.delays ≡ 0)
        ⊎ (sum (retry options w).1.delays < options.max_duration_ms)
  retry_waits w clock =
      Rounds-waited (options.now w) (initial options w) (retry options w).1 (retry options w).0
        clock (retry-Rounds options w) (omega arith) (inl refl)
