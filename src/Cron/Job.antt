-- ===== src/Cron/Job.antt =====
-- src/cron/types.ts: the data of a cron job. A time is a number of milliseconds since the epoch; the
-- ISO text of a date is the date itself, since the code only reads it back with `Date.parse`.
use reins_core.Prelude.{ℕ, Bool, true, false, Option, List}
use reins_core.Prelude.Text.{Text}

pub data JobStatus : Type 0 where
  active paused completed failed : JobStatus

-- A stored time: a date, or a text that `Date.parse` does not read.
pub data Stamp : Type 0 where
  at : ℕ → Stamp
  unreadable : Stamp

-- The parameters are kept as a text, since no code of this component reads them.
pub record Payload : Type 0 where
  pub action : Text
  pub parameters : Text

pub record Job : Type 0 where
  pub id : Text
  pub name : Text
  pub description : Text
  pub schedule : Text
  pub timezone : Text
  pub status : JobStatus
  pub created_by : Text
  pub created_at : ℕ
  pub updated_at : ℕ
  pub last_run_at : Option ℕ
  pub next_run_at : Option Stamp
  pub run_count : ℕ
  pub max_runs : Option ℕ
  pub payload : Payload
  pub tags : List Text

abbrev pub is_active : JobStatus → Bool
is_active active = true
is_active _ = false
