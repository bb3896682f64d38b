-- ===== src/Cron/NextRun/Tests.antt =====
-- Next runs computed in January 1970.
use reins_core.Prelude.{
  ℕ, ◌+◌, ◌*◌, ◌%◌, ◌≡◌, refl, ◌≤◌, ◌<◌, true, false, Option, none, List, arith, Any, inl, ◌↔◌,
  zero, suc,
}
use reins_core.Prelude.Text.{Text, units, split_on, trim}
use reins_core.Cron.Samples.{decimal, january, any_zone}
use reins_core.Cron.Expression.{
  ok, err, next_run_compute_failed, parse_cron_expression, matches_field, ParsedCronExpression,
  parse_cron_field_part, parse_cron_field,
}
use reins_core.Cron.Job.{Job}
use reins_core.Cron.NextRun.{
  PartKind, TimeParts, search_from, is_job_due, get_time_parts, probe, compute_next_run_at,
  max_next_run_search_minutes,
}
use reins_core.Cron.NextRun.Search.{compute_next_run_at-first, compute_next_run_at-failed}
use reins_core.Cron.NextRun.Weekday.{is_job_due-seven}
use reins_core.Cron.Expression.Matching.{Covers}

abbrev quarterly : Text
quarterly = units "*/15 * * * *"

-- From 00:07:30 the next quarter of an hour is 00:15.
computed : compute_next_run_at decimal january any_zone quarterly (units "UTC") 450000 ≡ ok 900000
unfolding compute_next_run_at max_next_run_search_minutes is_job_due get_time_parts
    parse_cron_expression matches_field decimal january
computed = refl

compute_next_run_at-first_example :
    (450000 < 900000)
    × (900000 % 60000 ≡ 0)
    × (900000 ≤ 450000 + 527040 * 60000)
    × (is_job_due decimal january any_zone (probe quarterly (units "UTC") 450000) 900000 ≡ true)
    × ((u : ℕ)
        → 450000 < u
        → u < 900000
        → u % 60000 ≡ 0
        → is_job_due decimal january any_zone (probe quarterly (units "UTC") 450000) u ≡ false)
compute_next_run_at-first_example =
    compute_next_run_at-first decimal january any_zone quarterly (units "UTC") 450000 900000
      computed

abbrev sundays : Job
sundays = record (probe (units "0 9 * * 7") (units "UTC") 0) { id = units "weekly" }

-- 9:00 on Thursday the first of January 1970.
due_on_thursday : is_job_due decimal january any_zone sundays 32400000 ≡ true
unfolding is_job_due get_time_parts parse_cron_expression matches_field decimal january
due_on_thursday = refl

abbrev weekly : ParsedCronExpression
weekly = record {
  minute = units "0";
  hour = units "9";
  day_of_month = units "*";
  month = units "*";
  day_of_week = units "7";
}

abbrev thursday : TimeParts
thursday = record { minute = 0; hour = 9; day_of_month = 1; month = 1; day_of_week = 4 }

seven_parsed : Any (λ s. Covers decimal s 7) (split_on b',' (units "7"))
unfolding parse_cron_field_part decimal split_on trim
seven_parsed =
    inl (record { start = 7; end = 7; step = 1; wildcard = false }, refl, (0, refl, omega arith))

thursday_parts : get_time_parts decimal january any_zone 32400000 (units "UTC") ≡ ok thursday
unfolding get_time_parts decimal january
thursday_parts = refl

is_job_due-seven_example : (is_job_due decimal january any_zone sundays 32400000 ≡ true) ↔ (
    (matches_field decimal (units "0") 0 0 ≡ true)
    × (matches_field decimal (units "9") 9 0 ≡ true)
    × (matches_field decimal (units "*") 1 0 ≡ true)
    × (matches_field decimal (units "*") 1 0 ≡ true))
unfolding parse_cron_expression parse_cron_field decimal
is_job_due-seven_example =
    is_job_due-seven decimal january any_zone sundays 32400000 weekly thursday refl refl
      thursday_parts refl seven_parsed

abbrev never : Text → ℕ → Option (List (PartKind × Text))
never timezone t = none

never_found :
    (rounds : ℕ) (job : Job) (candidate : ℕ)
    → search_from decimal never any_zone rounds job candidate ≡ none
unfolding search_from is_job_due get_time_parts
never_found zero job candidate = refl
never_found (suc rounds) job candidate = ground (arith, never_found rounds job (candidate + 60000))

never_computed :
    compute_next_run_at decimal never any_zone quarterly (units "UTC") 450000
    ≡ err next_run_compute_failed
unfolding compute_next_run_at parse_cron_expression
never_computed = rw (never_found _ _ _)

compute_next_run_at-failed_example :
    is_job_due decimal never any_zone (probe quarterly (units "UTC") 450000) 480000 ≡ false
compute_next_run_at-failed_example =
    compute_next_run_at-failed decimal never any_zone quarterly (units "UTC") 450000 480000
      never_computed (omega arith) (omega arith) refl
