-- ===== src/Cron/RateLimit.antt =====
-- src/cron/rate-limit.ts: `CronRateLimiter`. Times are milliseconds, given with each call; a cutoff
-- `timestamp <= now - period` is written `timestamp + period <= now`, as numbers here stop at 0.
pub mod Windows
mod Tests
use reins_core.Prelude.{
  ℕ, ◌+◌, Bool, Option, none, some, List, [], ◌∷◌, ◌++◌, filter, length, leb, not, or_else,
  if◌then◌else◌,
}

pub record Config : Type 0 where
  pub max_executions_per_minute : ℕ
  pub max_executions_per_hour : ℕ

pub record CronRateLimiter : Type 0 where
  pub config : Config
  pub minute_window : List ℕ
  pub hour_window : List ℕ

pub record Usage : Type 0 where
  pub minute_count : ℕ
  pub hour_count : ℕ
  pub minute_limit : ℕ
  pub hour_limit : ℕ

pub data Acquired : Type 0 where
  ok : Acquired
  minute_limit_exceeded hour_limit_exceeded : (limit : ℕ) → Acquired

unfoldable pub new : Option ℕ → Option ℕ → CronRateLimiter
new per_minute per_hour = record {
  config = record {
    max_executions_per_minute = or_else per_minute 10;
    max_executions_per_hour = or_else per_hour 100;
  };
  minute_window = [];
  hour_window = [];
}

-- The backwards loop that splices out each time at or before the cutoff.
abbrev pub prune_window : ℕ → ℕ → List ℕ → List ℕ
prune_window period now window = filter (λ t. not (leb (t + period) now)) window

pub prune_windows : CronRateLimiter → ℕ → CronRateLimiter
prune_windows l now = record l {
  minute_window = prune_window 60000 now l.minute_window;
  hour_window = prune_window 3600000 now l.hour_window;
}

-- The part of `tryAcquire` after the windows are pruned.
admit : CronRateLimiter → ℕ → Acquired × CronRateLimiter
admit l now =
    if leb l.config.max_executions_per_minute (length l.minute_window)
    then (minute_limit_exceeded l.config.max_executions_per_minute, l)
    else if leb l.config.max_executions_per_hour (length l.hour_window)
    then (hour_limit_exceeded l.config.max_executions_per_hour, l)
    else (
      ok,
      record l {
        minute_window = l.minute_window ++ now ∷ [];
        hour_window = l.hour_window ++ now ∷ [];
      },
    )

unfoldable pub try_acquire : CronRateLimiter → ℕ → Acquired × CronRateLimiter
unfolding admit prune_windows
try_acquire l now = admit (prune_windows l now) now

unfoldable pub get_usage : CronRateLimiter → ℕ → Usage × CronRateLimiter
unfolding prune_windows
get_usage l now =
    let pruned = prune_windows l now in
    (
      record {
        minute_count = length pruned.minute_window;
        hour_count = length pruned.hour_window;
        minute_limit = pruned.config.max_executions_per_minute;
        hour_limit = pruned.config.max_executions_per_hour;
      },
      pruned,
    )

pub reset : CronRateLimiter → CronRateLimiter
reset l = record l { minute_window = []; hour_window = [] }
