-- ===== src/Cron/Scheduler/Ticks.antt =====
-- What a tick does to the jobs in memory.
use reins_core.Prelude.{
  ℕ, ◌≡◌, refl, ◌⊎◌, inl, inr, sym, ◌∙◌, subst, true, false, some, List, [], ◌∷◌, arith,
  if◌then◌else◌, ◌≢◌,
}
use reins_core.Prelude.Text.{Text}
use reins_core.Prelude.Eq.{text_is_eq, text_eq_iff}
use reins_core.Prelude.JsMap.{JsMap, get, set, get-set}
use reins_core.Cron.Job.{Job}
use reins_core.Cron.Expression.{ok, err}
use reins_core.Cron.Scheduler.Defs.{
  Options, Scheduler, is_execution_due, after_execution, execute_job, tick_entries, run_tick,
}
use reins_core.Cron.Scheduler.Executing.{
  after_execution-not-due, execute_job-saved, execute_job-unsaved, execute_job-cases,
}

module _ {W : Type 0} (o : Options W) where
  -- One entry of the loop: the jobs and the world that the rest of the loop starts from.
  unfoldable pub after_entry : Text → Job → ℕ → JsMap Text Job → W → JsMap Text Job × W
  after_entry id job now jobs w =
      if is_execution_due job now
      then (
        elim (execute_job o job now w).0 [ err e ↦ jobs | ok next ↦ set jobs id next ],
        (execute_job o job now w).1,
      )
      else (jobs, w)

  pub tick_entries-cons :
      (id : Text) (job : Job) (entries : List (Text × Job)) (now : ℕ) (jobs : JsMap Text Job)
      (w : W)
      → tick_entries o ((id, job) ∷ entries) now jobs w
        ≡ tick_entries o entries now
            (after_entry id job now jobs w).0
            (after_entry id job now jobs w).1
  unfolding tick_entries after_entry
  tick_entries-cons id job entries now jobs w = ground arith

  -- The entry's own execution, if there is one that is kept; all else stays.
  pub get-after_entry :
      (id i : Text) (job : Job) (now : ℕ) (jobs : JsMap Text Job) (w : W)
      → (get (after_entry id job now jobs w).0 i ≡ get jobs i)
        ⊎ ((id ≡ i)
            × (is_execution_due job now ≡ true)
            × (get (after_entry id job now jobs w).0 i
                ≡ some (after_execution o job now (o.on_execute job w).0)))
  unfolding after_entry
  get-after_entry id i job now jobs w = ground (
    arith,
    execute_job-cases o job now w,
    get-set jobs id i (after_execution o job now (o.on_execute job w).0),
    text_eq_iff id i,
  )

  -- While ticks go through the entries, a job in memory is not due any more or still to come.
  Settled : ℕ → List (Text × Job) → JsMap Text Job → Type 0
  Settled now entries jobs =
      (i : Text) (job : Job)
      → get jobs i ≡ some job
      → (is_execution_due job now ≡ false) ⊎ (get entries i ≡ some job)

  after_entry-Settled :
      (id : Text) (job : Job) (entries : List (Text × Job)) (now : ℕ) (jobs : JsMap Text Job)
      (w : W)
      → ((j : Job) (v : W) → (o.store.save j v).0 ≡ ok tt)
      → Settled now ((id, job) ∷ entries) jobs
      → Settled now entries (after_entry id job now jobs w).0
  unfolding Settled get after_entry
  after_entry-Settled id job entries now jobs w saves settled i found e = ground (
    arith,
    text_eq_iff id i,
    settled i found,
    execute_job-saved o job now w saves,
    get-set jobs id i (after_execution o job now (o.on_execute job w).0),
    after_execution-not-due o job now (o.on_execute job w).0,
  )

  tick_entries-Settled :
      (entries : List (Text × Job)) (now : ℕ) (jobs : JsMap Text Job) (w : W)
      → ((j : Job) (v : W) → (o.store.save j v).0 ≡ ok tt)
      → Settled now entries jobs
      → Settled now [] (tick_entries o entries now jobs w).0
  unfolding tick_entries
  tick_entries-Settled [] now jobs w saves settled = settled
  tick_entries-Settled ((id, job) ∷ entries) now jobs w saves settled =
      subst (λ r. Settled now [] r.0) (sym (tick_entries-cons id job entries now jobs w))
        (tick_entries-Settled entries now (after_entry id job now jobs w).0
          (after_entry id job now jobs w).1 saves
          (after_entry-Settled id job entries now jobs w saves settled))

  -- After a tick of a running scheduler whose store takes every save, no job in memory is due at the
  -- time of the tick.
  pub run_tick-none_due :
      (now : ℕ) (s : Scheduler W)
      → s.running ≡ true
      → ((j : Job) (v : W) → (o.store.save j v).0 ≡ ok tt)
      → (i : Text) (job : Job) → get (run_tick o now s).jobs i ≡ some job
      → is_execution_due job now ≡ false
  unfolding run_tick Settled get
  run_tick-none_due now s on saves i job e =
      let found = rw (on, run_tick) at e in
      elim (tick_entries-Settled s.jobs now s.jobs s.world saves (λ j kept h. inr h) i job found) [
        | inl settled ↦ settled
        | inr missing ↦ cc
      ]

  after_entry-unsaved :
      (id : Text) (job : Job) (now : ℕ) (jobs : JsMap Text Job) (w : W)
      → ((j : Job) (v : W) → (o.store.save j v).0 ≢ ok tt)
      → (after_entry id job now jobs w).0 ≡ jobs
  unfolding after_entry
  after_entry-unsaved id job now jobs w refuses =
      ground (arith, execute_job-unsaved o job now w refuses)

  tick_entries-unsaved :
      (entries : List (Text × Job)) (now : ℕ) (jobs : JsMap Text Job) (w : W)
      → ((j : Job) (v : W) → (o.store.save j v).0 ≢ ok tt)
      → (tick_entries o entries now jobs w).0 ≡ jobs
  unfolding tick_entries
  tick_entries-unsaved [] now jobs w refuses = refl
  tick_entries-unsaved ((id, job) ∷ entries) now jobs w refuses =
      let next = after_entry id job now jobs w in
      rw (tick_entries-cons id job entries now jobs w) (
        tick_entries-unsaved entries now next.0 next.1 refuses
        ∙ after_entry-unsaved id job now jobs w refuses)

  -- While the store refuses every save, a tick leaves the jobs in memory as they were, those that are
  -- due among them.
  pub run_tick-unsaved :
      (now : ℕ) (s : Scheduler W)
      → ((j : Job) (v : W) → (o.store.save j v).0 ≢ ok tt)
      → (run_tick o now s).jobs ≡ s.jobs
  unfolding run_tick
  run_tick-unsaved now s refuses =
      ground (arith, tick_entries-unsaved s.jobs now s.jobs s.world refuses)
