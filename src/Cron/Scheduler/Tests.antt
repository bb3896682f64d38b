-- ===== src/Cron/Scheduler/Tests.antt =====
-- A scheduler with one quarterly job, over a store that takes every save and over one that takes none.
use reins_core.Prelude.{
  ℕ, suc, ◌≡◌, ◌≢◌, refl, true, false, none, some, [], ◌∷◌, arith, if◌then◌else◌,
}
use reins_core.Prelude.Text.{units, text_eq}
use reins_core.Prelude.Eq.{text_is_eq, text_eq_iff}
use reins_core.Prelude.JsMap.{get, set}
use reins_core.Cron.Samples.{decimal, january, any_zone}
use reins_core.Cron.Job.{Job, active, completed, at}
use reins_core.Cron.Expression.{
  store_failed, Result, ok, err, validate_cron_expression, parse_cron_field, matches_field,
}
use reins_core.Cron.NextRun.{
  compute_next_run_at, max_next_run_search_minutes, is_job_due, get_time_parts,
}
use reins_core.Cron.Scheduler.Defs.{
  CronStore, Options, Scheduler, CreateInput, UpdateInput, create, update, run_tick, tick_entries,
  normalize_tags, is_execution_due, get_required_job, validate_job, candidate, check_new_id,
  save_and_keep, reschedule, execute_job, after_execution,
}
use reins_core.Cron.Scheduler.Executing.{IsWithinBudget}
use reins_core.Cron.Scheduler.Ticks.{run_tick-none_due, run_tick-unsaved}
use reins_core.Cron.Scheduler.Calls.{run_ticks, Counts, Ran, run_ticks-Ran}
use reins_core.Cron.Scheduler.Changes.{Created, create_lem, Updated, update_lem}

abbrev store : Result {0} Unit → CronStore Unit
store saved = record {
  save = λ job w. (saved, w);
  get = λ id w. (ok none, w);
  list = λ w. (ok [], w);
  delete = λ id w. (ok tt, w);
}

abbrev options : Result {0} Unit → Options Unit
options saved = record {
  store = store saved;
  on_execute = λ job w. (true, w);
  number = decimal;
  format_to_parts = january;
  valid_timezone = any_zone;
  system_timezone = units "UTC";
}

abbrev keeping : Options Unit
keeping = options (ok tt)

abbrev refusing : Options Unit
refusing = options (err store_failed)

-- A job that is due at 00:15 and may run once.
abbrev once : Job
once = record {
  id = units "q";
  name = units "quarterly";
  description = [];
  schedule = units "*/15 * * * *";
  timezone = units "UTC";
  status = active;
  created_by = units "agent";
  created_at = 0;
  updated_at = 0;
  last_run_at = none;
  next_run_at = some (at 900000);
  run_count = 0;
  max_runs = some 1;
  payload = record { action = units "notify"; parameters = [] };
  tags = [];
}

abbrev idle : Scheduler Unit
idle = record { jobs = (units "q", once) ∷ []; running = true; world = tt }

abbrev ran : Job
ran = record once {
  status = completed;
  run_count = 1;
  last_run_at = some 960000;
  updated_at = 960000;
  next_run_at = none;
}

once_ran : get (run_tick keeping 960000 idle).jobs (units "q") ≡ some ran
unfolding run_tick is_execution_due execute_job after_execution get set tick_entries
once_ran = refl

run_tick-none_due_example : is_execution_due ran 960000 ≡ false
run_tick-none_due_example =
    run_tick-none_due keeping 960000 idle refl (λ j v. refl) (units "q") ran once_ran

refused : (refusing.store.save once tt).0 ≢ ok tt
refused e = ground arith

run_tick-unsaved_example : (run_tick refusing 960000 idle).jobs ≡ idle.jobs
run_tick-unsaved_example = run_tick-unsaved refusing 960000 idle (λ j v. refused)

abbrev wanted : CreateInput
wanted = record {
  id = none;
  name = units "quarterly";
  description = none;
  schedule = units "*/15 * * * *";
  timezone = none;
  payload = record { action = units "notify"; parameters = [] };
  max_runs = some 2;
  tags = none;
}

abbrev empty : Scheduler Unit
empty = record { jobs = []; running = true; world = tt }

-- The job created at 00:07:30.
abbrev made : Job
made = record once { id = units "x"; created_at = 450000; updated_at = 450000; max_runs = some 2 }

made_ok : (create keeping wanted (units "x") 450000 empty).0 ≡ ok made
unfolding create validate_job validate_cron_expression candidate check_new_id save_and_keep
    compute_next_run_at parse_cron_field decimal max_next_run_search_minutes is_job_due
    get_time_parts january matches_field normalize_tags
made_ok = refl

create_lem_example :
    (get (create keeping wanted (units "x") 450000 empty).1.jobs (units "x") ≡ some made)
    × IsWithinBudget made
    × Created keeping wanted 450000 made
create_lem_example = create_lem keeping wanted (units "x") 450000 empty made made_ok

abbrev pause : UpdateInput
pause = record {
  name = none;
  description = none;
  schedule = none;
  timezone = none;
  status = some completed;
  payload = none;
  max_runs = none;
  tags = none;
}

abbrev stopped : Job
stopped = record once { status = completed; next_run_at = none; updated_at = 450000 }

stopped_ok : (update keeping (units "q") pause 450000 idle).0 ≡ ok stopped
unfolding update get_required_job validate_job validate_cron_expression reschedule save_and_keep get
    parse_cron_field decimal
stopped_ok = refl

update_lem_example :
    (get (update keeping (units "q") pause 450000 idle).1.jobs (units "q") ≡ some stopped)
    × ((old : Job) × ((get_required_job keeping (units "q") idle).0 ≡ ok old)
        × Updated keeping old pause 450000 stopped)
update_lem_example = update_lem keeping (units "q") pause 450000 idle stopped stopped_ok

-- A scheduler whose world counts the calls of the callback, and a job that may run twice.
abbrev counting : Options ℕ
counting = record {
  store = record {
    save = λ job w. (ok tt, w);
    get = λ id w. (ok none, w);
    list = λ w. (ok [], w);
    delete = λ id w. (ok tt, w);
  };
  on_execute = λ job w. (true, if text_eq job.id (units "q") then suc w else w);
  number = decimal;
  format_to_parts = january;
  valid_timezone = any_zone;
  system_timezone = units "UTC";
}

counting-Counts : Counts counting (units "q") (λ w. w)
counting-Counts = record {
  of_call = λ job w same. ground (arith, text_eq_iff job.id (units "q"));
  of_other = λ job w other. ground (arith, text_eq_iff job.id (units "q"));
  of_save = λ job w. refl;
}

abbrev twice : Job
twice = record once { max_runs = some 2 }

abbrev busy : Scheduler ℕ
busy = record { jobs = (units "q", twice) ∷ []; running = true; world = 0 }

found_twice : get busy.jobs (units "q") ≡ some twice
unfolding get
found_twice = refl

run_ticks-Ran_example :
    (after : Job) × (get (run_ticks counting (960000 ∷ 1860000 ∷ []) busy).jobs (units "q")
      ≡ some after)
    × Ran counting twice after 0 (run_ticks counting (960000 ∷ 1860000 ∷ []) busy).world
run_ticks-Ran_example =
    run_ticks-Ran counting (units "q") (λ w. w) counting-Counts (λ j v. refl)
      (960000 ∷ 1860000 ∷ []) busy twice ((tt, tt), (refl, tt)) (omega arith, λ on. omega arith)
      found_twice

called_once : (run_ticks counting (960000 ∷ []) busy).world ≡ 1
unfolding run_ticks is_execution_due execute_job after_execution get set tick_entries run_tick
    compute_next_run_at parse_cron_field decimal max_next_run_search_minutes is_job_due
    get_time_parts january matches_field validate_cron_expression
called_once = refl
