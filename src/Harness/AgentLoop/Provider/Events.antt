-- ===== src/Harness/AgentLoop/Provider/Events.antt =====
-- What a run over a provider yields.
use reins_core.Prelude.{ℕ}
use reins_core.Harness.DoomLoopGuard.{DoomLoopGuard}
use reins_core.Harness.AgentLoop.Provider.Parts
use reins_core.Harness.AgentLoop.Provider.Parts.{StreamEvent, Compaction}
use reins_core.Harness.AgentLoop.Provider.Data.{
  Environment, Round, goes_on, stops, thrown, Outcome, ended, threw,
}
use reins_core.Harness.AgentLoop.Provider.{before, loop}

module _ {Arguments Value Given Usage W : Type 0} (env : Environment Arguments Value Given Usage W)
    (max_steps : ℕ) where
  continued : ℕ → Round Arguments Value Given Usage W → Outcome Arguments Value Usage
  continued fuel r = elim r [
    | goes_on events s' ↦ before env max_steps events (loop env max_steps fuel s')
    | stops events last ↦ ended events last
    | thrown events ↦ threw events
  ]
