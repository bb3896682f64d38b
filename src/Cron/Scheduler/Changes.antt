-- ===== src/Cron/Scheduler/Changes.antt =====
-- What `create` and `update` leave behind when they succeed.
use reins_core.Prelude.{
  ℕ, ◌<◌, ◌≡◌, ◌⊎◌, sym, subst, inl, inr, refl, true, false, Option, none, some, arith, Bool-cases,
  or_else,
}
use reins_core.Prelude.Text.{Text, trim}
use reins_core.Prelude.Eq.{text_is_eq, text_eq_iff}
use reins_core.Prelude.JsMap.{get, get-set}
use reins_core.Cron.Job.{Job, Stamp, at, is_active, active}
use reins_core.Cron.Expression.{ok}
use reins_core.Cron.Scheduler.Defs.{
  Options, Scheduler, CreateInput, UpdateInput, validate_job, candidate, check_new_id,
  save_and_keep, create, get_required_job, max_runs_ok, patched, new_job, reschedule, update,
  next_run, is_execution_due, normalize_tags,
}
use reins_core.Cron.Scheduler.Executing.{next_run-cases, Result-cases, Budget, IsWithinBudget}

-- A patch that is absent keeps the value, and any other sets it to what `f` makes of the patch.
abbrev pub Follows : {A B : Type 0} → (B → A) → Option B → (old new : A) → Type 0
Follows f none old new = new ≡ old
Follows f (some patch) old new = new ≡ f patch

-- What no update changes.
abbrev pub IsSameRecord : Job → Job → Type 0
IsSameRecord old job =
    (job.id ≡ old.id)
    × (job.created_by ≡ old.created_by)
    × (job.created_at ≡ old.created_at)
    × (job.last_run_at ≡ old.last_run_at)
    × (job.run_count ≡ old.run_count)

Follows-elim :
    {A B : Type 0} (f : B → A) (patch : Option B) (old : A)
    → Follows f patch old (elim patch [ none ↦ old | some x ↦ f x ])
Follows-elim f none old = refl
Follows-elim f (some x) old = refl

Follows-or_else :
    {A : Type 0} (patch : Option A) (old : A) → Follows (λ x. x) patch old (or_else patch old)
Follows-or_else none old = refl
Follows-or_else (some x) old = refl

module _ {W : Type 0} (o : Options W) where
  save_and_keep-ok :
      (job saved : Job) (s : Scheduler W)
      → (save_and_keep o job s).0 ≡ ok saved
      → (saved ≡ job) × (get (save_and_keep o job s).1.jobs job.id ≡ some job)
  unfolding save_and_keep
  save_and_keep-ok job saved s e = elim (Result-cases (o.store.save job s.world).0) [
    | inl (_, kept) ↦ ground (arith, get-set s.jobs job.id job.id job, text_eq_iff job.id job.id)
    | inr (_, refused) ↦ ground arith
  ]

  -- What a created job is, by its next run.
  abbrev pub Created : CreateInput → ℕ → Job → Type 0
  Created input now job =
      (job.status ≡ active)
      × (job.run_count ≡ 0)
      × (is_execution_due job now ≡ false)
      × ((t : ℕ) × (job.next_run_at ≡ some (at t))
          × (now < t)
          × (next_run o input.schedule job.timezone now ≡ ok t))

  create-cases :
      (input : CreateInput) (uuid : Text) (now : ℕ) (s : Scheduler W) (job : Job)
      → (create o input uuid now s).0 ≡ ok job
      → (id : Text) × (t : ℕ) × (s' : Scheduler W) × (validate_job o (candidate o input) ≡ ok tt)
        × (next_run o input.schedule (or_else input.timezone o.system_timezone) now ≡ ok t)
        × (now < t)
        × (create o input uuid now s ≡ save_and_keep o (new_job o input id now t) s')
  unfolding create
  create-cases input uuid now s job e = elim (Result-cases (validate_job o (candidate o input))) [
    | inr (_, bad) ↦ ground arith
    | inl (_, good) ↦
        let id : Text = elim input.id [ none ↦ uuid | some given ↦ trim given ] in
        let checked = check_new_id o input.id id s in
        elim (Result-cases checked.0) [
          | inr (_, taken) ↦ ground arith
          | inl (_, free) ↦
              elim (next_run-cases o input.schedule (or_else input.timezone o.system_timezone)
                now) [
                  | inr (_, never) ↦ ground arith
                  | inl (t, found, later) ↦ (id, t, checked.1, good, found, later, ground arith)
                ]
        ]
  ]

  validated-max_runs : (job : Job) → validate_job o job ≡ ok tt → max_runs_ok job.max_runs ≡ true
  unfolding validate_job
  validated-max_runs job e = ground arith

  new_job-Budget : (limit : Option ℕ) → max_runs_ok limit ≡ true → Budget limit 0 active
  new_job-Budget none h = tt
  new_job-Budget (some n) h = (omega arith, λ _. ground arith)

  -- A job that `create` returns is in memory under its id, active and never run, within its budget,
  -- and its next run is the one computed for its schedule and time zone, later than now; it is not due
  -- now.
  pub create_lem :
      (input : CreateInput) (uuid : Text) (now : ℕ) (s : Scheduler W) (job : Job)
      → (create o input uuid now s).0 ≡ ok job
      → (get (create o input uuid now s).1.jobs job.id ≡ some job)
        × IsWithinBudget job
        × Created input now job
  unfolding candidate is_execution_due
  create_lem input uuid now s job e =
      let (id, t, s', good, found, later, same) = create-cases input uuid now s job e in
      let (made, kept) =
        save_and_keep-ok (new_job o input id now t) job s' (subst (λ r. r.0 ≡ ok job) same e) in
      let budget = new_job-Budget input.max_runs (validated-max_runs (candidate o input) good) in
      let due : is_execution_due (new_job o input id now t) now ≡ false = ground arith in
      let stored =
        subst (λ r. get r.1.jobs (new_job o input id now t).id ≡ some (new_job o input id now t))
          (sym same) kept in
      subst
        (λ j.
          (get (create o input uuid now s).1.jobs j.id ≡ some j)
          × IsWithinBudget j
          × Created input now j)
        (sym made) (stored, budget, (refl, refl, due, (t, refl, later, found)))

  reschedule-cases :
      (job : Job) (now : ℕ) (updated : Job)
      → reschedule o job now ≡ ok updated
      → ((is_active job.status ≡ true)
          × ((t : ℕ) × (next_run o job.schedule job.timezone now ≡ ok t)
              × (now < t)
              × (updated ≡ record job { next_run_at = some (at t) })))
        ⊎ ((is_active job.status ≡ false) × (updated ≡ record job { next_run_at = none }))
  unfolding reschedule
  reschedule-cases job now updated e = elim (Bool-cases (is_active job.status)) [
    | inr off ↦ ground arith
    | inl on ↦ elim (next_run-cases o job.schedule job.timezone now) [
      | inl (t, found, later) ↦ inl (on, (t, found, later, ground arith))
      | inr (_, never) ↦ ground arith
    ]
  ]

  update-cases :
      (id : Text) (input : UpdateInput) (now : ℕ) (s : Scheduler W) (job : Job)
      → (update o id input now s).0 ≡ ok job
      → (old : Job) × (s' : Scheduler W) × (updated : Job) × (get_required_job o id s
          ≡ (ok old, s'))
        × (validate_job o (patched o old input now) ≡ ok tt)
        × (reschedule o (patched o old input now) now ≡ ok updated)
        × (update o id input now s ≡ save_and_keep o updated s')
  unfolding update
  update-cases id input now s job e = elim (Result-cases (get_required_job o id s).0) [
    | inr (_, missing) ↦ ground arith
    | inl (old, found) ↦ elim (Result-cases (validate_job o (patched o old input now))) [
      | inr (_, bad) ↦ ground arith
      | inl (_, good) ↦ elim (Result-cases (reschedule o (patched o old input now) now)) [
        | inr (_, never) ↦ ground arith
        | inl (updated, next) ↦
            (old, (get_required_job o id s).1, updated, ground arith, good, next, ground arith)
      ]
    ]
  ]

  -- The next run of an active job is the one computed for its schedule; any other job has none.
  abbrev pub IsAhead : Job → ℕ → Type 0
  IsAhead job now =
      (is_active job.status ≡ true
        × ((t : ℕ) × (job.next_run_at ≡ some (at t))
            × (now < t)
            × (next_run o job.schedule job.timezone now ≡ ok t)))
      ⊎ ((is_active job.status ≡ false) × (job.next_run_at ≡ none))

  -- What an updated job is, by the job before and the patch: every field that a patch may name, those
  -- that none may, and the next run.
  abbrev pub Updated : Job → UpdateInput → ℕ → Job → Type 0
  Updated old input now job =
      Follows trim input.name old.name job.name
      × Follows trim input.description old.description job.description
      × Follows trim input.schedule old.schedule job.schedule
      × Follows (λ t. t) input.timezone old.timezone job.timezone
      × Follows (λ t. t) input.status old.status job.status
      × Follows (λ t. t) input.payload old.payload job.payload
      × Follows (λ t. t) input.max_runs old.max_runs job.max_runs
      × Follows (λ t. normalize_tags (some t)) input.tags old.tags job.tags
      × (job.updated_at ≡ now)
      × IsSameRecord old job
      × (validate_job o job ≡ ok tt)
      × (is_execution_due job now ≡ false)
      × IsAhead job now

  -- The patched job with a next run is an updated one.
  patched-Updated :
      (old : Job) (input : UpdateInput) (now : ℕ) (next : Option Stamp)
      → let job : Job = record (patched o old input now) { next_run_at = next } in
        validate_job o (patched o old input now) ≡ ok tt
        → is_execution_due job now ≡ false
        → IsAhead job now
        → Updated old input now job
  unfolding validate_job
  patched-Updated old input now next good due ahead = (
    Follows-elim trim input.name old.name,
    Follows-elim trim input.description old.description,
    Follows-elim trim input.schedule old.schedule,
    Follows-or_else input.timezone old.timezone,
    Follows-or_else input.status old.status,
    Follows-or_else input.payload old.payload,
    Follows-or_else input.max_runs old.max_runs,
    Follows-elim (λ t. normalize_tags (some t)) input.tags old.tags,
    refl,
    (refl, refl, refl, refl, refl),
    good,
    due,
    ahead,
  )

  Updated-of_reschedule :
      (old : Job) (input : UpdateInput) (now : ℕ) (job : Job)
      → validate_job o (patched o old input now) ≡ ok tt
      → reschedule o (patched o old input now) now ≡ ok job
      → Updated old input now job
  unfolding is_execution_due
  Updated-of_reschedule old input now job good e =
      elim (reschedule-cases (patched o old input now) now job e) [
        | inl (on, (t, found, later, same)) ↦
            let next : Job = record (patched o old input now) { next_run_at = some (at t) } in
            let due : is_execution_due next now ≡ false = ground arith in
            subst (Updated old input now) (sym same) (
              patched-Updated old input now (some (at t)) good due
                (inl (on, (t, refl, later, found))))
        | inr (off, same) ↦
            let next : Job = record (patched o old input now) { next_run_at = none } in
            let due : is_execution_due next now ≡ false = ground arith in
            subst (Updated old input now) (sym same)
              (patched-Updated old input now none good due (inr (off, refl)))
      ]

  -- A job that `update` returns is in memory under its id. Its name, description, schedule, time zone,
  -- status, payload, limit of runs and tags are those of the patch where it has them, and of the job
  -- before where not, and nothing else but the time of the update and the next run is changed; it
  -- passes validation; its next run is the one computed for its schedule, later than now, if it is
  -- active, and none otherwise, and it is not due now.
  pub update_lem :
      (id : Text) (input : UpdateInput) (now : ℕ) (s : Scheduler W) (job : Job)
      → (update o id input now s).0 ≡ ok job
      → (get (update o id input now s).1.jobs job.id ≡ some job)
        × ((old : Job) × ((get_required_job o id s).0 ≡ ok old) × Updated old input now job)
  update_lem id input now s job e =
      let (old, s', updated, found, good, next, same) = update-cases id input now s job e in
      let (made, kept) = save_and_keep-ok updated job s' (subst (λ r. r.0 ≡ ok job) same e) in
      let stored = subst (λ r. get r.1.jobs updated.id ≡ some updated) (sym same) kept in
      (
        subst (λ j. get (update o id input now s).1.jobs j.id ≡ some j) (sym made) stored,
        (
          old,
          rw found refl,
          subst (Updated old input now) (sym made)
              (Updated-of_reschedule old input now updated good next),
        ),
      )
