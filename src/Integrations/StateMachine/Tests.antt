-- ===== src/Integrations/StateMachine/Tests.antt =====
-- Runs of the state machine, and the theorems at inputs that meet their hypotheses.
use mathlib.Core.List.{Sublistᴰ}
use reins_core.Prelude.{
  ℕ, ◌≡◌, refl, String, Option, none, some, List, [], ◌∷◌, ◌==◌, if◌then◌else◌, count, ◌⊎◌,
}
use reins_core.Integrations.StateMachine.{
  IntegrationState, installed, configured, connected, active, disconnected, StateMachine, ok,
  invalid_transition, new, notify_listeners, transition, transitions,
}
use reins_core.Integrations.StateMachine.Lifecycle.{Step, transition_lem, active_needs_setup}
use reins_core.Integrations.StateMachine.Listeners.{
  Request, adds, removes, requests, subscribed, recording, notified_once,
}

abbrev faulty : ℕ → Option String
faulty l = if l == 2 then some "boom" else none

abbrev watched : StateMachine
watched = record { integration_id = "obsidian"; state = installed; listeners = 2 ∷ 5 ∷ [] }

accepted :
    transition (recording faulty) watched configured []
    ≡ (ok, record watched { state = configured }, 2 ∷ 5 ∷ [])
unfolding transition notify_listeners
accepted = refl

refused :
    transition (recording faulty) watched active []
    ≡ (invalid_transition "obsidian" installed active, watched, [])
unfolding transition
refused = refl

abbrev attempts : List IntegrationState
attempts = active ∷ configured ∷ disconnected ∷ installed ∷ configured ∷ connected ∷ active ∷ []

transition_lem_example :
    (Step installed configured
      × (transition (recording faulty) watched configured [] ≡ (
        ok,
        record watched { state = configured },
        notify_listeners (recording faulty) (2 ∷ 5 ∷ []) "obsidian" installed configured [],
      )))
    ⊎ ((¬ Step installed configured)
        × (transition (recording faulty) watched configured []
            ≡ (invalid_transition "obsidian" installed configured, watched, [])))
transition_lem_example = transition_lem (recording faulty) watched configured []

active_needs_setup_example : Sublistᴰ (configured ∷ connected ∷ active ∷ []) attempts
unfolding new transitions transition notify_listeners
active_needs_setup_example = active_needs_setup (recording faulty) "obsidian" attempts [] refl

abbrev subscriptions : List Request
subscriptions = adds 2 ∷ adds 5 ∷ adds 2 ∷ removes 7 ∷ []

notified_once_example :
    count
      (λ k. k == 2)
      (notify_listeners
        (recording faulty)
        (requests (new "obsidian" none) subscriptions).listeners
        "obsidian"
        installed
        configured
        [])
    ≡ 1
unfolding subscribed
notified_once_example = notified_once "obsidian" none subscriptions faulty installed configured 2
