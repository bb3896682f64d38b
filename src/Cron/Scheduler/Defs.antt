-- ===== src/Cron/Scheduler/Defs.antt =====
-- The scheduler's state and its methods.
use reins_core.Prelude.{
  ℕ, ◌+◌, Bool, true, false, not, Option, none, some, List, [], ◌∷◌, map, filter, leb,
  if◌then◌else◌, or_else,
}
use reins_core.Prelude.Text.{Text, units, trim, text_eq}
use reins_core.Prelude.Eq.{text_is_eq}
use reins_core.Prelude.JsMap.{JsMap, get, set, delete}
use reins_core.Cron.Job.{
  JobStatus, active, completed, failed, Stamp, at, unreadable, Payload, Job, is_active,
}
use reins_core.Cron.Expression.{
  job_id_required, job_name_required, job_action_required, max_runs_invalid, timezone_invalid,
  job_already_exists, job_not_found, Result, ok, err, validate_cron_expression,
}
use reins_core.Cron.NextRun.{PartKind, compute_next_run_at}

-- The store, on a world of its own; each operation may fail.
pub record CronStore (W : Type 0) : Type 0 where
  pub save : Job → W → Result (Unit {0}) × W
  pub get : Text → W → Result (Option Job) × W
  pub list : W → Result (List Job) × W
  pub delete : Text → W → Result (Unit {0}) × W

-- What the scheduler is given: its store, the callback `onExecute` (false where it throws), and what
-- the platform knows of numbers and time zones.
pub record Options (W : Type 0) : Type 0 where
  pub store : CronStore W
  pub on_execute : Job → W → Bool × W
  pub number : Text → Option ℕ
  pub format_to_parts : Text → ℕ → Option (List (PartKind × Text))
  pub valid_timezone : Text → Bool
  pub system_timezone : Text

pub record Scheduler (W : Type 0) : Type 0 where
  pub jobs : JsMap Text Job
  pub running : Bool
  pub world : W

pub record CreateInput : Type 0 where
  pub id : Option Text
  pub name : Text
  pub description : Option Text
  pub schedule : Text
  pub timezone : Option Text
  pub payload : Payload
  pub max_runs : Option ℕ
  pub tags : Option (List Text)

-- In `max_runs`, `some none` is an explicit null.
pub record UpdateInput : Type 0 where
  pub name : Option Text
  pub description : Option Text
  pub schedule : Option Text
  pub timezone : Option Text
  pub status : Option JobStatus
  pub payload : Option Payload
  pub max_runs : Option (Option ℕ)
  pub tags : Option (List Text)

abbrev is_nil {ℓ} : {A : Type ℓ} → List A → Bool
is_nil [] = true
is_nil (x ∷ xs) = false

-- `Array.from(new Set(texts))`: the first of equal texts stays.
distinct : List Text → List Text
distinct [] = []
distinct (t ∷ ts) = t ∷ filter (λ s. not (text_eq t s)) (distinct ts)

unfoldable pub normalize_tags : Option (List Text) → List Text
unfolding distinct
normalize_tags none = []
normalize_tags (some tags) = distinct (filter (λ t. not (is_nil t)) (map trim tags))

abbrev stamp_due : Option Stamp → ℕ → Bool
stamp_due none now = false
stamp_due (some unreadable) now = false
stamp_due (some (at t)) now = leb t now

unfoldable pub is_execution_due : Job → ℕ → Bool
is_execution_due job now = if is_active job.status then stamp_due job.next_run_at now else false

abbrev pub max_runs_ok : Option ℕ → Bool
max_runs_ok none = true
max_runs_ok (some n) = not (leb n 0)

abbrev exhausted : Option ℕ → ℕ → Bool
exhausted none run_count = false
exhausted (some n) run_count = leb n run_count

module _ {W : Type 0} (o : Options W) where
  abbrev pub next_run : Text → Text → ℕ → Result ℕ
  next_run = compute_next_run_at o.number o.format_to_parts o.valid_timezone

  unfoldable pub validate_job : Job → Result (Unit {0})
  validate_job job =
      if is_nil (trim job.id)
      then err job_id_required
      else if is_nil (trim job.name)
      then err job_name_required
      else if is_nil (trim job.payload.action)
      then err job_action_required
      else if not (max_runs_ok job.max_runs)
      then err max_runs_invalid
      else if not (o.valid_timezone job.timezone)
      then err timezone_invalid
      else validate_cron_expression o.number job.schedule

  unfoldable pub candidate : CreateInput → Job
  candidate input = record {
    id = units "candidate";
    name = input.name;
    description = or_else input.description [];
    schedule = input.schedule;
    timezone = or_else input.timezone o.system_timezone;
    status = active;
    created_by = units "agent";
    created_at = 0;
    updated_at = 0;
    last_run_at = none;
    next_run_at = none;
    run_count = 0;
    max_runs = input.max_runs;
    payload = input.payload;
    tags = normalize_tags input.tags;
  }

  abbrev pub new_job : CreateInput → Text → ℕ → ℕ → Job
  new_job input id now next_run_at = record {
    id = id;
    name = trim input.name;
    description = trim (or_else input.description []);
    schedule = trim input.schedule;
    timezone = or_else input.timezone o.system_timezone;
    status = active;
    created_by = units "agent";
    created_at = now;
    updated_at = now;
    last_run_at = none;
    next_run_at = some (at next_run_at);
    run_count = 0;
    max_runs = input.max_runs;
    payload = input.payload;
    tags = normalize_tags input.tags;
  }

  -- Saves a job and, if the store took it, keeps it in memory.
  unfoldable pub save_and_keep : Job → Scheduler W → Result Job × Scheduler W
  save_and_keep job s =
      let (saved, w) = o.store.save job s.world in
      elim saved [
        | err e ↦ (err e, record s { world = w })
        | ok _ ↦ (ok job, record s { jobs = set s.jobs job.id job; world = w })
      ]

  unfoldable pub get_job : Text → Scheduler W → Result (Option Job) × Scheduler W
  get_job id s = elim (get s.jobs id) [
    | some job ↦ (ok (some job), s)
    | none ↦ let (found, w) = o.store.get id s.world in (found, record s { world = w })
  ]

  -- The check for a job of the id that the caller chose.
  unfoldable pub check_new_id : Option Text → Text → Scheduler W → Result (Unit {0}) × Scheduler W
  unfolding get_job
  check_new_id none id s = (ok tt, s)
  check_new_id (some _) id s =
      let (existing, s') = get_job id s in
      elim existing [
        | err e ↦ (err e, s')
        | ok none ↦ (ok tt, s')
        | ok (some job) ↦ (err job_already_exists, s')
      ]

  -- `uuid` is the identity that `crypto.randomUUID` would give.
  unfoldable pub create :
      CreateInput → (uuid : Text) → (now : ℕ) → Scheduler W → Result Job × Scheduler W
  unfolding validate_job candidate check_new_id save_and_keep
  create input uuid now s = elim (validate_job (candidate input)) [
    | err e ↦ (err e, s)
    | ok _ ↦
        let id : Text = elim input.id [ none ↦ uuid | some given ↦ trim given ] in
        let (checked, s') = check_new_id input.id id s in
        elim checked [
          | err e ↦ (err e, s')
          | ok _ ↦ elim (next_run input.schedule (or_else input.timezone o.system_timezone) now) [
            | err e ↦ (err e, s')
            | ok t ↦ save_and_keep (new_job input id now t) s'
          ]
        ]
  ]

  unfoldable pub get_required_job : Text → Scheduler W → Result Job × Scheduler W
  get_required_job id s = elim (get s.jobs id) [
    | some job ↦ (ok job, s)
    | none ↦
        let (found, w) = o.store.get id s.world in
        elim found [
          | err e ↦ (err e, record s { world = w })
          | ok none ↦ (err job_not_found, record s { world = w })
          | ok (some job) ↦ (ok job, record s { jobs = set s.jobs id job; world = w })
        ]
  ]

  abbrev pub patched : Job → UpdateInput → ℕ → Job
  patched job input now = record job {
    name = elim input.name [ none ↦ job.name | some name ↦ trim name ];
    description = elim input.description [ none ↦ job.description | some text ↦ trim text ];
    schedule = elim input.schedule [ none ↦ job.schedule | some text ↦ trim text ];
    timezone = or_else input.timezone job.timezone;
    status = or_else input.status job.status;
    payload = or_else input.payload job.payload;
    max_runs = or_else input.max_runs job.max_runs;
    tags = elim input.tags [ none ↦ job.tags | some tags ↦ normalize_tags (some tags) ];
    updated_at = now;
  }

  -- The next run of an updated job: computed anew if it is active, and otherwise none.
  unfoldable pub reschedule : Job → ℕ → Result Job
  reschedule job now =
      if is_active job.status
      then elim (next_run job.schedule job.timezone now) [
        | err e ↦ err e
        | ok t ↦ ok (record job { next_run_at = some (at t) })
      ]
      else ok (record job { next_run_at = none })

  unfoldable pub update : Text → UpdateInput → (now : ℕ) → Scheduler W → Result Job × Scheduler W
  unfolding get_required_job validate_job reschedule save_and_keep
  update id input now s =
      let (existing, s') = get_required_job id s in
      elim existing [
        | err e ↦ (err e, s')
        | ok job ↦ elim (validate_job (patched job input now)) [
          | err e ↦ (err e, s')
          | ok _ ↦ elim (reschedule (patched job input now) now) [
            | err e ↦ (err e, s')
            | ok updated ↦ save_and_keep updated s'
          ]
        ]
      ]

  unfoldable pub remove : Text → Scheduler W → Result (Unit {0}) × Scheduler W
  remove id s =
      let (deleted, w) = o.store.delete id s.world in
      elim deleted [
        | err e ↦ (err e, record s { world = w })
        | ok _ ↦ (ok tt, record s { jobs = delete s.jobs id; world = w })
      ]

  abbrev load : JsMap Text Job → List Job → JsMap Text Job
  load jobs [] = jobs
  load jobs (job ∷ listed) = load (set jobs job.id job) listed

  unfoldable pub list_jobs : Scheduler W → Result (List Job) × Scheduler W
  list_jobs s =
      let (listed, w) = o.store.list s.world in
      elim listed [
        | err e ↦ (err e, record s { world = w })
        | ok jobs ↦ (ok jobs, record s { jobs = load [] jobs; world = w })
      ]

  -- The timer that `start` sets calls `tick` from then on.
  unfoldable pub start : Scheduler W → Result (Unit {0}) × Scheduler W
  start s =
      if s.running
      then (ok tt, s)
      else (let (listed, w) = o.store.list s.world in
          elim listed [
            | err e ↦ (err e, record s { world = w })
            | ok jobs ↦ (ok tt, record s { jobs = load [] jobs; running = true; world = w })
          ])

  -- No tick is in progress when `stop` is called.
  unfoldable pub stop : Scheduler W → Result (Unit {0}) × Scheduler W
  stop s = (ok tt, record s { running = false })

  abbrev executed_job : Job → ℕ → Job
  executed_job job now = record job {
    last_run_at = some now;
    run_count = job.run_count + 1;
    updated_at = now;
  }

  -- The job after its callback: `done` is false where the callback threw.
  unfoldable pub after_execution : Job → ℕ → Bool → Job
  after_execution job now done =
      let next = executed_job job now in
      if not done
      then record next { status = failed; next_run_at = none }
      else if exhausted next.max_runs next.run_count
      then record next { status = completed; next_run_at = none }
      else elim (next_run next.schedule next.timezone now) [
        | err e ↦ record next { status = failed; next_run_at = none }
        | ok t ↦ record next { status = active; next_run_at = some (at t) }
      ]

  unfoldable pub execute_job : Job → ℕ → W → Result Job × W
  execute_job job now w =
      let (done, w') = o.on_execute job w in
      let next = after_execution job now done in
      let (saved, w'') = o.store.save next w' in
      elim saved [ err e ↦ (err e, w'') | ok _ ↦ (ok next, w'') ]

  -- The loop over the entries that the map has at the start of a tick. Setting a key that is present
  -- does not move it, and nothing else is set or deleted while the callback has no hold of the map.
  unfoldable pub tick_entries : List (Text × Job) → ℕ → JsMap Text Job → W → JsMap Text Job × W
  tick_entries [] now jobs w = (jobs, w)
  tick_entries ((id, job) ∷ entries) now jobs w =
      let skipped = tick_entries entries now jobs w in
      let run =
        let (executed, w') = execute_job job now w in
        let kept : JsMap Text Job = elim executed [ err e ↦ jobs | ok next ↦ set jobs id next ] in
        tick_entries entries now kept w' in
      if is_execution_due job now then run else skipped

  unfoldable pub run_tick : (now : ℕ) → Scheduler W → Scheduler W
  run_tick now s =
      if s.running
      then (let (jobs, w) = tick_entries s.jobs now s.jobs s.world in
          record s { jobs = jobs; world = w })
      else s
