-- ===== src/Cron/RateLimit/Tests.antt =====
-- Runs of the limiter, and the theorems at inputs that meet their hypotheses.
use reins_core.Prelude.{ℕ, ◌≡◌, refl, ◌≤◌, ◌<◌, ◌↔◌, none, some, List, [], ◌∷◌, arith}
use reins_core.Cron.RateLimit.{ok, minute_limit_exceeded, new, try_acquire}
use reins_core.Cron.RateLimit.Windows.{
  attempts, start, within, recent, granted_bounded, try_acquire_iff,
}

abbrev times : List ℕ
times = 1000 ∷ 2000 ∷ 30000 ∷ 61000 ∷ []

-- Two a minute: the third attempt is refused, the fourth is granted again.
granted_test : (attempts (start (some 2) none) times).granted ≡ 1000 ∷ 2000 ∷ 61000 ∷ []
unfolding attempts try_acquire new
granted_test = refl

refused_test :
    (try_acquire (attempts (start (some 2) none) times).limiter 61500).0 ≡ minute_limit_exceeded 2
unfolding attempts try_acquire new
refused_test = refl

granted_bounded_example :
    (within 60000 1500 (attempts (start (some 2) none) times).granted ≤ 2)
    × (within 3600000 1500 (attempts (start (some 2) none) times).granted ≤ 100)
granted_bounded_example = granted_bounded (some 2) none times 1500 (omega arith)

try_acquire_iff_example :
    let h = attempts (start (some 2) none) times in
    ((try_acquire h.limiter 62500).0 ≡ ok)
    ↔ ((recent 60000 62500 h.granted < 2) × (recent 3600000 62500 h.granted < 100))
try_acquire_iff_example = try_acquire_iff (some 2) none times 62500 (omega arith) (omega arith)
