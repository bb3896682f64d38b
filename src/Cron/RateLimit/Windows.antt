-- ===== src/Cron/RateLimit/Windows.antt =====
-- The limiter against the whole history of granted executions.
use reins_core.Prelude.{
  ℕ, ◌+◌, ◌≤◌, ◌<◌, ◌≡◌, refl, ap, sym, ◌∙◌, ◌↔◌, ◌&&◌, Option, List, [], ◌∷◌, ◌++◌, length, count,
  leb, ltb, arith, if◌then◌else◌, Bool-cases, inl, inr, or_else,
}
use reins_core.Cron.RateLimit.{
  CronRateLimiter, Acquired, ok, new, prune_window, prune_windows, admit, try_acquire,
}

-- What has happened so far: the limiter, and the times of all executions that it granted.
pub record History : Type 0 where
  pub limiter : CronRateLimiter
  pub granted : List ℕ

abbrev pub note : Acquired → ℕ → List ℕ → List ℕ
note ok now granted = granted ++ now ∷ []
note _ now granted = granted

abbrev pub attempt : History → ℕ → History
attempt h now = record {
  limiter = (try_acquire h.limiter now).1;
  granted = note (try_acquire h.limiter now).0 now h.granted;
}

unfoldable pub attempts : History → List ℕ → History
attempts h [] = h
attempts h (now ∷ times) = attempts (attempt h now) times

-- The clock never goes back.
abbrev pub Ordered : ℕ → List ℕ → Type 0
Ordered last [] = Unit
Ordered last (now ∷ times) = (last ≤ now) × Ordered now times

abbrev pub start : Option ℕ → Option ℕ → History
start per_minute per_hour = record { limiter = new per_minute per_hour; granted = [] }

-- The executions in the period that begins after a given time.
abbrev pub within : ℕ → ℕ → List ℕ → ℕ
within period since granted = count (λ t. ltb since t && leb t (since + period)) granted

-- The executions that a window has to hold at a given time.
abbrev pub recent : ℕ → ℕ → List ℕ → ℕ
recent period now granted = count (λ t. ltb now (t + period)) granted

length-prune_window :
    (period now : ℕ) (ts : List ℕ) → length (prune_window period now ts) ≡ recent period now ts
length-prune_window period now [] = refl
length-prune_window period now (t ∷ ts) = ground (arith, length-prune_window period now ts)

prune_window-later :
    (period last now : ℕ) (ts : List ℕ)
    → last ≤ now
    → prune_window period now (prune_window period last ts) ≡ prune_window period now ts
prune_window-later period last now [] h = refl
prune_window-later period last now (t ∷ ts) h =
    ground (arith, prune_window-later period last now ts h)

prune_window-append :
    (period now : ℕ) (ts : List ℕ)
    → 0 < period
    → prune_window period now (ts ++ now ∷ []) ≡ prune_window period now ts ++ now ∷ []
prune_window-append period now [] h = ground arith
prune_window-append period now (t ∷ ts) h = ground (arith, prune_window-append period now ts h)

within-append :
    (period since now : ℕ) (ts : List ℕ)
    → within period since (ts ++ now ∷ [])
      ≡ within period since ts + (if ltb since now && leb now (since + period) then 1 else 0)
within-append period since now [] = ground arith
within-append period since now (t ∷ ts) = ground (arith, within-append period since now ts)

within-le-recent :
    (period since now : ℕ) (ts : List ℕ)
    → now ≤ since + period
    → within period since ts ≤ recent period now ts
within-le-recent period since now [] h = omega arith
within-le-recent period since now (t ∷ ts) h =
    ground (arith, within-le-recent period since now ts h)

-- What one of the windows keeps to: it holds the recent part of the history, and no period has more
-- executions than the limit.
record Keeps (period limit last : ℕ) (window granted : List ℕ) : Type 0 where
  window_is : window ≡ prune_window period last granted
  bounded : (since : ℕ) → within period since granted ≤ limit

Keeps-pass :
    (period limit last now : ℕ) {window granted : List ℕ}
    → last ≤ now
    → Keeps period limit last window granted
    → Keeps period limit now (prune_window period now window) granted
Keeps-pass period limit last now {window} {granted} h k = record {
  window_is =
      ap (prune_window period now) k.window_is ∙ prune_window-later period last now granted h;
  bounded = k.bounded;
}

Keeps-grant :
    (period limit now : ℕ) {window granted : List ℕ}
    → 0 < period
    → Keeps period limit now window granted
    → length window < limit
    → Keeps period limit now (window ++ now ∷ []) (granted ++ now ∷ [])
Keeps-grant period limit now {window} {granted} pos k room = record {
  window_is =
      ap (λ w. w ++ now ∷ []) k.window_is ∙ sym (prune_window-append period now granted pos);
  bounded = λ since. ground (
    arith,
    k.bounded since,
    within-append period since now granted,
    within-le-recent period since now granted,
    length-prune_window period now granted,
    ap length k.window_is,
  );
}

record KeepsBoth (last : ℕ) (h : History) : Type 0 where
  minute :
      Keeps 60000 h.limiter.config.max_executions_per_minute last h.limiter.minute_window h.granted
  hour : Keeps 3600000 h.limiter.config.max_executions_per_hour last h.limiter.hour_window h.granted

pruned-KeepsBoth :
    (last now : ℕ) (h : History)
    → last ≤ now
    → KeepsBoth last h
    → KeepsBoth now (record h { limiter = prune_windows h.limiter now })
unfolding prune_windows
pruned-KeepsBoth last now h le k = record {
  minute = Keeps-pass 60000 _ last now le k.minute;
  hour = Keeps-pass 3600000 _ last now le k.hour;
}

admit-KeepsBoth :
    (now : ℕ) (l : CronRateLimiter) (granted : List ℕ)
    → KeepsBoth now (record { limiter = l; granted = granted })
    → KeepsBoth now
        (record { limiter = (admit l now).1; granted = note (admit l now).0 now granted })
unfolding admit
admit-KeepsBoth now l granted k =
    elim (Bool-cases (leb l.config.max_executions_per_minute (length l.minute_window))) [
      | inl full ↦ rw full k
      | inr free ↦
          rw free elim (Bool-cases (leb l.config.max_executions_per_hour (length l.hour_window))) [
            | inl full ↦ rw full k
            | inr room ↦ rw room (record {
              minute = Keeps-grant 60000 _ now (omega arith) k.minute (ground arith);
              hour = Keeps-grant 3600000 _ now (omega arith) k.hour (ground arith);
            })
          ]
    ]

attempt-KeepsBoth :
    (last now : ℕ) (h : History) → last ≤ now → KeepsBoth last h → KeepsBoth now (attempt h now)
unfolding try_acquire
attempt-KeepsBoth last now h le k =
    admit-KeepsBoth now (prune_windows h.limiter now) h.granted (pruned-KeepsBoth last now h le k)

abbrev pub last_of : ℕ → List ℕ → ℕ
last_of last [] = last
last_of last (now ∷ times) = last_of now times

attempts-KeepsBoth :
    (last : ℕ) (times : List ℕ) (h : History)
    → Ordered last times
    → KeepsBoth last h
    → KeepsBoth (last_of last times) (attempts h times)
unfolding attempts
attempts-KeepsBoth last [] h o k = k
attempts-KeepsBoth last (now ∷ times) h (le, o) k =
    attempts-KeepsBoth now times (attempt h now) o (attempt-KeepsBoth last now h le k)

config-try_acquire : (l : CronRateLimiter) (now : ℕ) → (try_acquire l now).1.config ≡ l.config
unfolding try_acquire
config-try_acquire l now = ground arith

config-attempts :
    (times : List ℕ) (h : History) → (attempts h times).limiter.config ≡ h.limiter.config
unfolding attempts
config-attempts [] h = refl
config-attempts (now ∷ times) h =
    config-attempts times (attempt h now) ∙ config-try_acquire h.limiter now

start-KeepsBoth : (per_minute per_hour : Option ℕ) → KeepsBoth 0 (start per_minute per_hour)
unfolding new
start-KeepsBoth per_minute per_hour = record {
  minute = record { window_is = refl; bounded = λ since. omega arith };
  hour = record { window_is = refl; bounded = λ since. omega arith };
}

limits :
    (per_minute per_hour : Option ℕ) (times : List ℕ)
    → let config = (attempts (start per_minute per_hour) times).limiter.config in
      (config.max_executions_per_minute ≡ or_else per_minute 10)
      × (config.max_executions_per_hour ≡ or_else per_hour 100)
unfolding new
limits per_minute per_hour times =
    let same = config-attempts times (start per_minute per_hour) in
    (ap (λ c. c.max_executions_per_minute) same, ap (λ c. c.max_executions_per_hour) same)

reached :
    (per_minute per_hour : Option ℕ) (times : List ℕ)
    → Ordered 0 times
    → KeepsBoth (last_of 0 times) (attempts (start per_minute per_hour) times)
reached per_minute per_hour times o =
    attempts-KeepsBoth 0 times (start per_minute per_hour) o (start-KeepsBoth per_minute per_hour)

-- Whenever executions are asked for, as long as the clock does not go back: no sixty seconds see
-- more executions granted than the limit for a minute, and no hour more than the limit for an hour.
pub granted_bounded :
    (per_minute per_hour : Option ℕ) (times : List ℕ) (since : ℕ)
    → Ordered 0 times
    → (within 60000 since (attempts (start per_minute per_hour) times).granted
        ≤ or_else per_minute 10)
      × (within 3600000 since (attempts (start per_minute per_hour) times).granted
          ≤ or_else per_hour 100)
granted_bounded per_minute per_hour times since o =
    let k = reached per_minute per_hour times o in
    let same = limits per_minute per_hour times in
    (omega (arith, k.minute.bounded since), omega (arith, k.hour.bounded since))

admit_iff :
    (now : ℕ) (l : CronRateLimiter) (granted : List ℕ)
    → KeepsBoth now (record { limiter = l; granted = granted })
    → ((admit l now).0 ≡ ok) ↔ (
        (recent 60000 now granted < l.config.max_executions_per_minute)
        × (recent 3600000 now granted < l.config.max_executions_per_hour))
unfolding admit
admit_iff now l granted k = ground (
  arith,
  ap length k.minute.window_is,
  ap length k.hour.window_is,
  length-prune_window 60000 now granted,
  length-prune_window 3600000 now granted,
)

-- An execution is granted exactly if the last minute and the last hour have fewer executions than
-- their limits, as long as the clock does not go back.
pub try_acquire_iff :
    (per_minute per_hour : Option ℕ) (times : List ℕ) (now : ℕ)
    → Ordered 0 times
    → last_of 0 times ≤ now
    → let h = attempts (start per_minute per_hour) times in
      ((try_acquire h.limiter now).0 ≡ ok) ↔ (
        (recent 60000 now h.granted < or_else per_minute 10)
        × (recent 3600000 now h.granted < or_else per_hour 100))
unfolding try_acquire
try_acquire_iff per_minute per_hour times now o le =
    let h = attempts (start per_minute per_hour) times in
    let (same, same') = limits per_minute per_hour times in
    let k = pruned-KeepsBoth (last_of 0 times) now h le (reached per_minute per_hour times o) in
    rw (← same, ← same') (admit_iff now (prune_windows h.limiter now) h.granted k)
