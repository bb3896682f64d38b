-- ===== src/Cron/Scheduler/Calls.antt =====
-- How often a job's callback is called by the ticks of `CronScheduler`. The callback acts on a world of
-- its own, and so does not reach the scheduler.
use reins_core.Prelude.{
  ℕ, suc, ◌+◌, ◌≡◌, ◌≢◌, refl, sym, ap, ◌∙◌, subst, inl, inr, some, List, [], ◌∷◌, arith,
  Bool-cases, All,
}
use reins_core.Prelude.Text.{Text, text_eq}
use reins_core.Prelude.Eq.{text_is_eq, text_eq_iff}
use reins_core.Prelude.JsMap.{JsMap, get, set, get-set, keys, HasDistinctKeys, set-HasDistinctKeys}
use reins_core.Cron.Job.{Job}
use reins_core.Cron.Expression.{ok}
use reins_core.Cron.Scheduler.Defs.{
  Options, Scheduler, is_execution_due, after_execution, execute_job, tick_entries, run_tick,
}
use reins_core.Cron.Scheduler.Executing.{
  IsWithinBudget, execute_job-saved, execute_job-cases, id-after_execution,
  run_count-after_execution, max_runs-after_execution, after_execution-IsWithinBudget,
}
use reins_core.Cron.Scheduler.Ticks.{after_entry, tick_entries-cons}

-- A job stands under its own id, and once.
abbrev pub IsKeyed : JsMap Text Job → Type 0
IsKeyed jobs = HasDistinctKeys jobs × All (λ e. e.1.id ≡ e.0) jobs

set-All :
    (jobs : JsMap Text Job) (id : Text) (job : Job)
    → job.id ≡ id
    → All (λ e. e.1.id ≡ e.0) jobs
    → All (λ e. e.1.id ≡ e.0) (set jobs id job)
unfolding set
set-All [] id job e h = (e, tt)
set-All ((k, j) ∷ jobs) id job e (h, hs) =
    ground (arith, set-All jobs id job e hs, text_eq_iff k id)

module _ {W : Type 0} (o : Options W) where
  -- A tick at each of the times.
  unfoldable pub run_ticks : List ℕ → Scheduler W → Scheduler W
  unfolding run_tick
  run_ticks [] s = s
  run_ticks (now ∷ times) s = run_ticks times (run_tick o now s)

  -- A count of the calls of the callback for the jobs of one id, which the store does not make.
  pub record Counts (id : Text) (calls : W → ℕ) : Type 0 where
    pub of_call : (job : Job) (w : W) → job.id ≡ id → calls (o.on_execute job w).1 ≡ suc (calls w)
    pub of_other : (job : Job) (w : W) → job.id ≢ id → calls (o.on_execute job w).1 ≡ calls w
    pub of_save : (job : Job) (w : W) → calls (o.store.save job w).1 ≡ calls w

  -- A job that stands where another stood, after calls that are all in its run count.
  abbrev pub Ran : (job after : Job) → (before calls : ℕ) → Type 0
  Ran job after before calls =
      (calls + job.run_count ≡ before + after.run_count)
      × (after.max_runs ≡ job.max_runs)
      × (after.id ≡ job.id)
      × IsWithinBudget after

  module _ (id : Text) (calls : W → ℕ) (counts : Counts id calls)
      (saves : (j : Job) (v : W) → (o.store.save j v).0 ≡ ok tt) where
    execute_job-call :
        (job : Job) (now : ℕ) (w : W)
        → job.id ≡ id
        → calls (execute_job o job now w).1 ≡ suc (calls w)
    unfolding execute_job
    execute_job-call job now w same =
        let next = after_execution o job now (o.on_execute job w).0 in
        ground (
          arith,
          saves next (o.on_execute job w).1,
          counts.of_call job w same,
          counts.of_save next (o.on_execute job w).1,
        )

    execute_job-other :
        (job : Job) (now : ℕ) (w : W) → job.id ≢ id → calls (execute_job o job now w).1 ≡ calls w
    unfolding execute_job
    execute_job-other job now w other =
        let next = after_execution o job now (o.on_execute job w).0 in
        ground (
          arith,
          saves next (o.on_execute job w).1,
          counts.of_other job w other,
          counts.of_save next (o.on_execute job w).1,
        )

    after_entry-other :
        (k : Text) (job : Job) (now : ℕ) (jobs : JsMap Text Job) (w : W)
        → job.id ≡ k
        → k ≢ id
        → (get (after_entry o k job now jobs w).0 id ≡ get jobs id)
          × (calls (after_entry o k job now jobs w).1 ≡ calls w)
    unfolding after_entry
    after_entry-other k job now jobs w keyed other =
        let unlike : job.id ≢ id = λ e. other (sym keyed ∙ e) in
        ground (
          arith,
          execute_job-saved o job now w saves,
          execute_job-other job now w unlike,
          get-set jobs k id (after_execution o job now (o.on_execute job w).0),
          text_eq_iff k id,
        )

    -- The entry of the id itself.
    after_entry-Ran :
        (job : Job) (now : ℕ) (jobs : JsMap Text Job) (w : W)
        → job.id ≡ id
        → IsWithinBudget job
        → get jobs id ≡ some job
        → (after : Job) × (get (after_entry o id job now jobs w).0 id ≡ some after)
          × Ran job after (calls w) (calls (after_entry o id job now jobs w).1)
    unfolding after_entry
    after_entry-Ran job now jobs w keyed budget found =
        elim (Bool-cases (is_execution_due job now)) [
          | inr early ↦ rw early (job, found, (refl, refl, refl, budget))
          | inl due ↦
              let done = (o.on_execute job w).0 in
              let next = after_execution o job now done in
              let ran = run_count-after_execution o job now done in
              let call = execute_job-call job now w keyed in
              rw due (
                next,
                ground (
                  arith,
                  execute_job-saved o job now w saves,
                  get-set jobs id id next,
                  text_eq_iff id id,
                ),
                (
                  omega (arith, ran, call),
                  max_runs-after_execution o job now done,
                  id-after_execution o job now done,
                  after_execution-IsWithinBudget o job now done due budget,
                ),
              )
        ]

    tick_entries-other :
        (entries : List (Text × Job)) (now : ℕ) (jobs : JsMap Text Job) (w : W)
        → All (λ j. j ≢ id) (keys entries)
        → All (λ e. e.1.id ≡ e.0) entries
        → (get (tick_entries o entries now jobs w).0 id ≡ get jobs id)
          × (calls (tick_entries o entries now jobs w).1 ≡ calls w)
    unfolding tick_entries
    tick_entries-other [] now jobs w other keyed = (refl, refl)
    tick_entries-other ((k, job) ∷ entries) now jobs w (other, others) (keyed, all) =
        let step = after_entry o k job now jobs w in
        let (same, still) = after_entry-other k job now jobs w keyed other in
        let (same', still') = tick_entries-other entries now step.0 step.1 others all in
        rw (tick_entries-cons o k job entries now jobs w) (same' ∙ same, still' ∙ still)

    -- The ticks of a loop that begins with the entry of the id, and of one where it stands anywhere.
    own_entry-Ran :
        (entries : List (Text × Job)) (now : ℕ) (jobs : JsMap Text Job) (w : W) (job : Job)
        → All (λ j. j ≢ id) (keys entries)
        → All (λ e. e.1.id ≡ e.0) entries
        → job.id ≡ id
        → IsWithinBudget job
        → get jobs id ≡ some job
        → (after : Job) × (get (tick_entries o ((id, job) ∷ entries) now jobs w).0 id ≡ some after)
          × Ran job after (calls w) (calls (tick_entries o ((id, job) ∷ entries) now jobs w).1)
    own_entry-Ran entries now jobs w job others all keyed budget found =
        let step = after_entry o id job now jobs w in
        let (after, found', ran) = after_entry-Ran job now jobs w keyed budget found in
        let (same, still) = tick_entries-other entries now step.0 step.1 others all in
        rw (tick_entries-cons o id job entries now jobs w)
          (after, same ∙ found', subst (λ n. Ran job after (calls w) n) (sym still) ran)

    tick_entries-Ran :
        (entries : List (Text × Job)) (now : ℕ) (jobs : JsMap Text Job) (w : W) (job : Job)
        → IsKeyed entries
        → IsWithinBudget job
        → get entries id ≡ some job
        → get jobs id ≡ some job
        → (after : Job) × (get (tick_entries o entries now jobs w).0 id ≡ some after)
          × Ran job after (calls w) (calls (tick_entries o entries now jobs w).1)
    unfolding get
    tick_entries-Ran [] now jobs w job keyed budget listed found = cc
    tick_entries-Ran ((k, j) ∷ entries) now jobs w job ((fresh, distinct), (keyed, all)) budget
          listed found =
        elim (Bool-cases (text_eq k id)) [
          | inr other ↦
              let step = after_entry o k j now jobs w in
              let unlike : k ≢ id = λ e. ground (arith, text_eq_iff k id) in
              let (same, still) = after_entry-other k j now jobs w keyed unlike in
              let (after, found', ran) =
                tick_entries-Ran entries now step.0 step.1 job (distinct, all) budget (ground arith)
                  (same ∙ found) in
              rw (tick_entries-cons o k j entries now jobs w) (
                after,
                found',
                subst (λ n. Ran job after n (calls (tick_entries o entries now step.0 step.1).1))
                    still ran,
              )
          | inl hit ↦
              let key : k ≡ id = ground (arith, text_eq_iff k id) in
              let same : job ≡ j = ground arith in
              let entry : (id, job) ≡ (k, j) = λ i. (sym key i, same i) in
              subst
                (λ e.
                  (after : Job) × (get (tick_entries o (e ∷ entries) now jobs w).0 id ≡ some after)
                  × Ran job after (calls w) (calls (tick_entries o (e ∷ entries) now jobs w).1))
                entry
                (own_entry-Ran entries now jobs w job
                  (subst (λ x. All (λ i. i ≢ x) (keys entries)) key fresh) all
                  (ap (λ (x : Job). x.id) same ∙ keyed ∙ key) budget found)
        ]

    run_tick-Ran :
        (now : ℕ) (s : Scheduler W) (job : Job)
        → IsKeyed s.jobs
        → IsWithinBudget job
        → get s.jobs id ≡ some job
        → (after : Job) × (get (run_tick o now s).jobs id ≡ some after)
          × Ran job after (calls s.world) (calls (run_tick o now s).world)
    unfolding run_tick
    run_tick-Ran now s job keyed budget found = elim (Bool-cases s.running) [
      | inr off ↦ rw off (job, found, (refl, refl, refl, budget))
      | inl on ↦ rw on (tick_entries-Ran s.jobs now s.jobs s.world job keyed budget found found)
    ]

  after_entry-IsKeyed :
      (k : Text) (job : Job) (now : ℕ) (jobs : JsMap Text Job) (w : W)
      → job.id ≡ k
      → IsKeyed jobs
      → IsKeyed (after_entry o k job now jobs w).0
  unfolding after_entry
  after_entry-IsKeyed k job now jobs w keyed (distinct, all) =
      let next = after_execution o job now (o.on_execute job w).0 in
      let same : next.id ≡ k = id-after_execution o job now (o.on_execute job w).0 ∙ keyed in
      let kept : IsKeyed (set jobs k next) =
        (set-HasDistinctKeys jobs k next distinct, set-All jobs k next same all) in
      elim (Bool-cases (is_execution_due job now)) [
        | inr early ↦ rw early (distinct, all)
        | inl due ↦ rw due (elim (execute_job-cases o job now w) [
          | inl ran ↦ rw ran kept
          | inr (e, failed) ↦ rw failed (distinct, all)
        ])
      ]

  tick_entries-IsKeyed :
      (entries : List (Text × Job)) (now : ℕ) (jobs : JsMap Text Job) (w : W)
      → All (λ e. e.1.id ≡ e.0) entries
      → IsKeyed jobs
      → IsKeyed (tick_entries o entries now jobs w).0
  unfolding tick_entries
  tick_entries-IsKeyed [] now jobs w all keyed = keyed
  tick_entries-IsKeyed ((k, job) ∷ entries) now jobs w (own, all) keyed =
      let step = after_entry o k job now jobs w in
      rw (tick_entries-cons o k job entries now jobs w) (
        tick_entries-IsKeyed entries now step.0 step.1 all
          (after_entry-IsKeyed k job now jobs w own keyed))

  run_tick-IsKeyed : (now : ℕ) (s : Scheduler W) → IsKeyed s.jobs → IsKeyed (run_tick o now s).jobs
  unfolding run_tick
  run_tick-IsKeyed now s keyed = elim (Bool-cases s.running) [
    | inr off ↦ rw off keyed
    | inl on ↦ rw on (tick_entries-IsKeyed s.jobs now s.jobs s.world keyed.1 keyed)
  ]

  -- Where calls of the callback for a job are counted, each job stands under its own id, and the store
  -- takes every save: whenever ticks come, a job that is within its budget stays in memory and within
  -- its budget, with its limit of runs, and its run count grows by just the calls that are made for
  -- it, so that all runs, the calls among them, are never more than the limit.
  pub run_ticks-Ran :
      (id : Text) (calls : W → ℕ)
      → Counts id calls
      → ((j : Job) (v : W) → (o.store.save j v).0 ≡ ok tt)
      → (times : List ℕ) (s : Scheduler W) (job : Job) → IsKeyed s.jobs
      → IsWithinBudget job
      → get s.jobs id ≡ some job
      → (after : Job) × (get (run_ticks times s).jobs id ≡ some after)
        × Ran job after (calls s.world) (calls (run_ticks times s).world)
  unfolding run_ticks
  run_ticks-Ran id calls counts saves [] s job keyed budget found =
      (job, found, (refl, refl, refl, budget))
  run_ticks-Ran id calls counts saves (now ∷ times) s job keyed budget found =
      let (mid, found', (total, most, same, budget')) =
        run_tick-Ran id calls counts saves now s job keyed budget found in
      let (after, found'', (total', most', same', budget'')) =
        run_ticks-Ran id calls counts saves times (run_tick o now s) mid
          (run_tick-IsKeyed now s keyed) budget' found' in
      (after, found'', (omega (arith, total, total'), most' ∙ most, same' ∙ same, budget''))
