-- ===== src/Harness/Semaphore.antt =====
-- src/harness/sub-agent-pool.ts: `Semaphore`, with which the pool bounds the agents that run at once,
-- and the choice of its permits. A caller is a number; `holding` and `granted` are history: how many
-- callers hold a permit, and who was given one, in order.
pub mod Fairness
mod Tests
use reins_core.Prelude.{ℕ, zero, suc, ◌+◌, ◌-◌, Option, none, some, List, [], ◌∷◌, ◌++◌, max}
use reins_core.Prelude.Numbers.{Number, not_finite, negative, finite}

pub data WorkspaceTier : Type 0 where
  free pro team : WorkspaceTier

abbrev pub tier_concurrency_limits : WorkspaceTier → ℕ
tier_concurrency_limits free = 2
tier_concurrency_limits pro = 5
tier_concurrency_limits team = 15

pub record Semaphore : Type 0 where
  pub permits : ℕ
  pub queue : List ℕ
  pub holding : ℕ
  pub granted : List ℕ

abbrev pub new : ℕ → Semaphore
new permits = record { permits = permits; queue = []; holding = 0; granted = [] }

abbrev take_permit : ℕ → ℕ → Semaphore → Semaphore
take_permit zero caller s = record s { queue = s.queue ++ caller ∷ [] }
take_permit (suc permits) caller s = record s {
  permits = permits;
  holding = suc s.holding;
  granted = s.granted ++ caller ∷ [];
}

unfoldable pub acquire : ℕ → Semaphore → Semaphore
acquire caller s = take_permit s.permits caller s

abbrev give_permit : List ℕ → Semaphore → Semaphore
give_permit [] s = s
give_permit (next ∷ queue) s = record s {
  permits = s.permits - 1;
  queue = queue;
  holding = suc s.holding;
  granted = s.granted ++ next ∷ [];
}

unfoldable pub release : Semaphore → Semaphore
release s = give_permit s.queue (record s { permits = s.permits + 1; holding = s.holding - 1 })

-- `resolveMaxConcurrent` of the pool.
unfoldable pub resolve_max_concurrent : Option Number → Option WorkspaceTier → ℕ
resolve_max_concurrent none none = 5
resolve_max_concurrent none (some tier) = tier_concurrency_limits tier
resolve_max_concurrent (some not_finite) none = 5
resolve_max_concurrent (some not_finite) (some tier) = tier_concurrency_limits tier
resolve_max_concurrent (some negative) tier = 1
resolve_max_concurrent (some (finite floor)) tier = max 1 floor
