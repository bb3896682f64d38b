-- ===== src/Cron/Scheduler/Executing.antt =====
-- What an execution makes of a job, whatever its callback and the store do.
use reins_core.Prelude.{
  subst, sym, ◌≢◌, ℕ, ◌+◌, ◌≤◌, ◌<◌, ◌≡◌, refl, Bool, true, false, Option, none, some, arith, inl,
  inr, ◌⊎◌,
}
use reins_core.Prelude.Text.{Text}
use reins_core.Cron.Job.{Job, JobStatus, is_active}
use reins_core.Cron.Expression.{CronError, Result, ok, err}
use reins_core.Cron.NextRun.Search.{compute_next_run_at-first}
use reins_core.Cron.Scheduler.Defs.{
  Options, is_execution_due, next_run, after_execution, execute_job,
}

pub Result-cases {ℓ} :
    {A : Type ℓ} (r : Result A) → ((a : A) × (r ≡ ok a)) ⊎ ((e : CronError) × (r ≡ err e))
Result-cases (ok a) = inl (a, refl)
Result-cases (err e) = inr (e, refl)

-- A job within its budget has run at most as often as its limit allows, and less often while active.
abbrev pub Budget : Option ℕ → ℕ → JobStatus → Type 0
Budget none run_count status = Unit
Budget (some n) run_count status = (run_count ≤ n) × (is_active status ≡ true → run_count < n)

abbrev pub IsWithinBudget : Job → Type 0
IsWithinBudget job = Budget job.max_runs job.run_count job.status

module _ {W : Type 0} (o : Options W) where
  pub next_run-cases :
      (schedule timezone : Text) (now : ℕ)
      → ((t : ℕ) × (next_run o schedule timezone now ≡ ok t) × (now < t))
        ⊎ ((e : CronError) × (next_run o schedule timezone now ≡ err e))
  next_run-cases schedule timezone now = elim (Result-cases (next_run o schedule timezone now)) [
    | inl (t, e) ↦ inl (
      t,
      e,
      (compute_next_run_at-first o.number o.format_to_parts o.valid_timezone schedule timezone now t
          e).0,
    )
    | inr x ↦ inr x
  ]

  pub after_execution-not-due :
      (job : Job) (now : ℕ) (done : Bool)
      → is_execution_due (after_execution o job now done) now ≡ false
  unfolding is_execution_due after_execution
  after_execution-not-due job now done =
      ground (arith, next_run-cases job.schedule job.timezone now)

  pub due-is_active :
      (job : Job) (now : ℕ) → is_execution_due job now ≡ true → is_active job.status ≡ true
  unfolding is_execution_due
  due-is_active job now h = ground arith

  pub after_execution-Budget :
      (job : Job) (limit : Option ℕ) (now : ℕ) (done : Bool)
      → job.max_runs ≡ limit
      → is_active job.status ≡ true
      → Budget limit job.run_count job.status
      → Budget limit
          (after_execution o job now done).run_count
          (after_execution o job now done).status
  unfolding after_execution
  after_execution-Budget job none now done e a b = tt
  after_execution-Budget job (some n) now done e a b =
      ground (arith, next_run-cases job.schedule job.timezone now)

  pub execute_job-saved :
      (job : Job) (now : ℕ) (w : W)
      → ((j : Job) (v : W) → (o.store.save j v).0 ≡ ok tt)
      → (execute_job o job now w).0 ≡ ok (after_execution o job now (o.on_execute job w).0)
  unfolding execute_job
  execute_job-saved job now w saves =
      ground
        (arith, saves (after_execution o job now (o.on_execute job w).0) (o.on_execute job w).1)

  pub execute_job-unsaved :
      (job : Job) (now : ℕ) (w : W)
      → ((j : Job) (v : W) → (o.store.save j v).0 ≢ ok tt)
      → (e : CronError) × ((execute_job o job now w).0 ≡ err e)
  unfolding execute_job
  execute_job-unsaved job now w refuses =
      let next = after_execution o job now (o.on_execute job w).0 in
      elim (Result-cases (o.store.save next (o.on_execute job w).1).0) [
        | inl (_, saved) ↦ absurd (refuses next (o.on_execute job w).1 saved)
        | inr (e, refused) ↦ (e, ground arith)
      ]

  -- Whatever the store does, an execution gives the job after it, or an error.
  pub execute_job-cases :
      (job : Job) (now : ℕ) (w : W)
      → ((execute_job o job now w).0 ≡ ok (after_execution o job now (o.on_execute job w).0))
        ⊎ ((e : CronError) × ((execute_job o job now w).0 ≡ err e))
  unfolding execute_job
  execute_job-cases job now w = ground (
    arith,
    Result-cases
        (o.store.save (after_execution o job now (o.on_execute job w).0) (o.on_execute job w).1).0,
  )

  pub max_runs-after_execution :
      (job : Job) (now : ℕ) (done : Bool) → (after_execution o job now done).max_runs ≡ job.max_runs
  unfolding after_execution
  max_runs-after_execution job now done =
      ground (arith, next_run-cases job.schedule job.timezone now)

  pub id-after_execution :
      (job : Job) (now : ℕ) (done : Bool) → (after_execution o job now done).id ≡ job.id
  unfolding after_execution
  id-after_execution job now done = ground (arith, next_run-cases job.schedule job.timezone now)

  pub run_count-after_execution :
      (job : Job) (now : ℕ) (done : Bool)
      → (after_execution o job now done).run_count ≡ job.run_count + 1
  unfolding after_execution
  run_count-after_execution job now done =
      ground (arith, next_run-cases job.schedule job.timezone now)

  pub after_execution-IsWithinBudget :
      (job : Job) (now : ℕ) (done : Bool)
      → is_execution_due job now ≡ true
      → IsWithinBudget job
      → IsWithinBudget (after_execution o job now done)
  after_execution-IsWithinBudget job now done due b =
      let next = after_execution o job now done in
      subst (λ n. Budget n next.run_count next.status) (sym (max_runs-after_execution job now done))
        (after_execution-Budget job job.max_runs now done refl (due-is_active job now due) b)
