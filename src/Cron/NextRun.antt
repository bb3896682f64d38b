-- ===== src/Cron/NextRun.antt =====
-- The part of src/cron/scheduler.ts that says when a job runs: `isJobDue`, `getTimeParts` and
-- `computeNextRunAt`. Parameters: `number` is `Number(text)` as in Expression.antt;
-- `format_to_parts timezone t` is what `Intl.DateTimeFormat` gives for the time t, none where it
-- throws; `valid_timezone` says for which zones `Intl` makes a formatter.
pub mod Search
pub mod Weekday
mod Tests
use reins_core.Prelude.{
  ℕ, zero, suc, ◌+◌, ◌-◌, ◌*◌, ◌%◌, Bool, true, false, ◌&&◌, ◌||◌, Option, none, some, List, [],
  ◌∷◌, map, if◌then◌else◌, ◌==◌,
}
use reins_core.Prelude.Text.{Text, units, starts_with, to_lower_unit}
use reins_core.Cron.Job.{Job, JobStatus, active, is_active}
use reins_core.Cron.Expression.{
  CronError, timezone_invalid, weekday_invalid, time_parts_failed, next_run_compute_failed, Result,
  ok, err, ◌>>=◌, ParsedCronExpression, parse_cron_expression, matches_field,
}

pub data PartKind : Type 0 where
  minute hour day month weekday literal : PartKind

abbrev kind_number : PartKind → ℕ
kind_number minute = 0
kind_number hour = 1
kind_number day = 2
kind_number month = 3
kind_number weekday = 4
kind_number literal = 5

pub record TimeParts : Type 0 where
  pub minute : ℕ
  pub hour : ℕ
  pub day_of_month : ℕ
  pub month : ℕ
  pub day_of_week : ℕ

abbrev minute_ms : ℕ
minute_ms = 60000

-- 366 * 24 * 60
unfoldable pub max_next_run_search_minutes : ℕ
max_next_run_search_minutes = 527040

abbrev present : Text → Option Text
present [] = none
present (c ∷ cs) = some (c ∷ cs)

-- The text of the first part of a kind; none stands for a thrown error, also where it is empty.
string_part : List (PartKind × Text) → PartKind → Option Text
string_part [] key = none
string_part ((kind, value) ∷ parts) key =
    if kind_number kind == kind_number key then present value else string_part parts key

weekday_to_number : Text → Option ℕ
weekday_to_number value =
    let normalized = map to_lower_unit value in
    if starts_with normalized (units "sun")
    then some 0
    else if starts_with normalized (units "mon")
    then some 1
    else if starts_with normalized (units "tue")
    then some 2
    else if starts_with normalized (units "wed")
    then some 3
    else if starts_with normalized (units "thu")
    then some 4
    else if starts_with normalized (units "fri")
    then some 5
    else if starts_with normalized (units "sat")
    then some 6
    else none

abbrev bind {ℓ κ} : {A : Type ℓ} {B : Type κ} → Option A → (A → Option B) → Option B
bind none f = none
bind (some a) f = f a

-- The job that the search asks about.
abbrev pub probe : Text → Text → ℕ → Job
probe schedule timezone from = record {
  id = units "probe";
  name = units "probe";
  description = [];
  schedule = schedule;
  timezone = timezone;
  status = active;
  created_by = units "probe";
  created_at = from;
  updated_at = from;
  last_run_at = none;
  next_run_at = none;
  run_count = 0;
  max_runs = none;
  payload = record { action = units "probe"; parameters = units "{}" };
  tags = [];
}

-- `setUTCSeconds(0, 0)`, then one minute later.
abbrev first_candidate : ℕ → ℕ
first_candidate from = from - from % minute_ms + minute_ms

module _ (number : Text → Option ℕ) (format_to_parts : Text → ℕ → Option (List (PartKind × Text)))
    (valid_timezone : Text → Bool) where
  number_part : List (PartKind × Text) → PartKind → Option ℕ
  unfolding string_part
  number_part parts key = bind (string_part parts key) number

  -- The body of the `try`; none stands for a thrown error.
  read_parts : List (PartKind × Text) → Option (Result TimeParts)
  unfolding number_part weekday_to_number
  read_parts parts = bind (number_part parts minute) λ m. bind (number_part parts hour) λ h.
      bind (number_part parts day) λ d. bind (number_part parts month) λ mo.
        bind (string_part parts weekday) λ name. some (elim (weekday_to_number name) [
          | none ↦ err weekday_invalid
          | some w ↦
              ok (record { minute = m; hour = h; day_of_month = d; month = mo; day_of_week = w })
        ])

  unfoldable pub get_time_parts : ℕ → Text → Result TimeParts
  unfolding read_parts
  get_time_parts date timezone = elim (bind (format_to_parts timezone date) read_parts) [
    | none ↦ err time_parts_failed
    | some r ↦ r
  ]

  abbrev matches_all : ParsedCronExpression → TimeParts → Bool
  matches_all fields parts =
      matches_field number fields.minute parts.minute 0
      && matches_field number fields.hour parts.hour 0
      && matches_field number fields.day_of_month parts.day_of_month 0
      && matches_field number fields.month parts.month 0
      && matches_field number fields.day_of_week parts.day_of_week 7

  unfoldable pub is_job_due : Job → ℕ → Bool
  is_job_due job now =
      if is_active job.status
      then elim (parse_cron_expression job.schedule) [
        | err e ↦ false
        | ok fields ↦ elim (get_time_parts now job.timezone) [
          | err e ↦ false
          | ok parts ↦ matches_all fields parts
        ]
      ]
      else false

  -- The loop, by the rounds that are left.
  search_from : ℕ → Job → ℕ → Option ℕ
  search_from zero job candidate = none
  search_from (suc rounds) job candidate = elim (is_job_due job candidate) [
    | true ↦ some candidate
    | false ↦ search_from rounds job (candidate + minute_ms)
  ]

  unfoldable pub compute_next_run_at : Text → Text → ℕ → Result ℕ
  unfolding search_from
  compute_next_run_at schedule timezone from = do
    _ ← parse_cron_expression schedule
    if valid_timezone timezone
        then elim (search_from max_next_run_search_minutes (probe schedule timezone from)
            (first_candidate from)) [
              | none ↦ err next_run_compute_failed
              | some candidate ↦ ok candidate
            ]
        else err timezone_invalid
