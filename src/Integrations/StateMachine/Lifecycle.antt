-- ===== src/Integrations/StateMachine/Lifecycle.antt =====
-- The life cycle that the state machine's comment draws, and what a run of transitions goes through.
use mathlib.Core.List.{Sublistᴰ}
use mathlib.Core.List.Sublistᴰ
use reins_core.Prelude.{
  ℕ, String, ◌≡◌, refl, ◌⊎◌, inl, inr, true, Option, none, List, [], ◌∷◌, arith, Bool-cases,
}
use reins_core.Integrations.StateMachine.{
  IntegrationState, installed, configured, connected, active, suspended, disconnected, StateMachine,
  ok, invalid_transition, new, can_transition, notify_listeners, transition, transitions,
}

-- installed → configured → connected → active ↔ suspended, with disconnected reached from each of
-- these, and a reinstallation out of disconnected.
pub data Step : IntegrationState → IntegrationState → Type 0 where
  configure : Step installed configured
  connect : Step configured connected
  activate : Step connected active
  suspend : Step active suspended
  resume : Step suspended active
  disconnect_installed : Step installed disconnected
  disconnect_configured : Step configured disconnected
  disconnect_connected : Step connected disconnected
  disconnect_active : Step active disconnected
  disconnect_suspended : Step suspended disconnected
  reinstall : Step disconnected installed

Step-of_can_transition :
    (m : StateMachine) (from to : IntegrationState)
    → m.state ≡ from
    → can_transition m to ≡ true
    → Step from to
unfolding can_transition
Step-of_can_transition m installed configured e h = configure
Step-of_can_transition m configured connected e h = connect
Step-of_can_transition m connected active e h = activate
Step-of_can_transition m active suspended e h = suspend
Step-of_can_transition m suspended active e h = resume
Step-of_can_transition m installed disconnected e h = disconnect_installed
Step-of_can_transition m configured disconnected e h = disconnect_configured
Step-of_can_transition m connected disconnected e h = disconnect_connected
Step-of_can_transition m active disconnected e h = disconnect_active
Step-of_can_transition m suspended disconnected e h = disconnect_suspended
Step-of_can_transition m disconnected installed e h = reinstall
Step-of_can_transition m from to e h = ground arith

can_transition_of_Step :
    (m : StateMachine) {from to : IntegrationState}
    → m.state ≡ from
    → Step from to
    → can_transition m to ≡ true
unfolding can_transition
can_transition_of_Step m e configure = rw e
can_transition_of_Step m e connect = rw e
can_transition_of_Step m e activate = rw e
can_transition_of_Step m e suspend = rw e
can_transition_of_Step m e resume = rw e
can_transition_of_Step m e disconnect_installed = rw e
can_transition_of_Step m e disconnect_configured = rw e
can_transition_of_Step m e disconnect_connected = rw e
can_transition_of_Step m e disconnect_active = rw e
can_transition_of_Step m e disconnect_suspended = rw e
can_transition_of_Step m e reinstall = rw e

-- What a state still has to go through before the integration is active.
abbrev pub needed : IntegrationState → List IntegrationState
needed installed = configured ∷ connected ∷ active ∷ []
needed configured = connected ∷ active ∷ []
needed connected = active ∷ []
needed active = []
needed suspended = active ∷ []
needed disconnected = installed ∷ configured ∷ connected ∷ active ∷ []

needed-disconnected : (from : IntegrationState) → Sublistᴰ (needed from) (needed disconnected)
needed-disconnected installed = Sublistᴰ.cons (Sublistᴰ.refl _)
needed-disconnected configured = Sublistᴰ.cons (Sublistᴰ.cons (Sublistᴰ.refl _))
needed-disconnected connected = Sublistᴰ.cons (Sublistᴰ.cons (Sublistᴰ.cons (Sublistᴰ.refl _)))
needed-disconnected active = Sublistᴰ.nil-sublist _
needed-disconnected suspended = Sublistᴰ.cons (Sublistᴰ.cons (Sublistᴰ.cons (Sublistᴰ.refl _)))
needed-disconnected disconnected = Sublistᴰ.refl _

needed_all :
    (from : IntegrationState) {tos : List IntegrationState}
    → Sublistᴰ (needed disconnected) tos
    → Sublistᴰ (needed from) (disconnected ∷ tos)
needed_all from s = Sublistᴰ.cons (Sublistᴰ.trans (needed-disconnected from) s)

needed-Step :
    {from to : IntegrationState} (tos : List IntegrationState)
    → Step from to
    → Sublistᴰ (needed to) tos
    → Sublistᴰ (needed from) (to ∷ tos)
needed-Step tos configure s = Sublistᴰ.cons-cons refl s
needed-Step tos connect s = Sublistᴰ.cons-cons refl s
needed-Step tos activate s = Sublistᴰ.cons-cons refl s
needed-Step tos suspend s = Sublistᴰ.nil-sublist _
needed-Step tos resume s = Sublistᴰ.cons-cons refl s
needed-Step tos disconnect_installed s = needed_all installed s
needed-Step tos disconnect_configured s = needed_all configured s
needed-Step tos disconnect_connected s = needed_all connected s
needed-Step tos disconnect_active s = needed_all active s
needed-Step tos disconnect_suspended s = needed_all suspended s
needed-Step tos reinstall s = Sublistᴰ.cons-cons refl s

module _ {W : Type 0}
    (call : ℕ → String → IntegrationState → IntegrationState → W → W × Option String) where
  -- A transition that the life cycle has is accepted: the machine moves to the new state and
  -- changes in nothing else, and the listeners are called with the old and the new state. Any
  -- other is refused with the two states, and leaves the machine and the world as they were.
  pub transition_lem :
      (m : StateMachine) (to : IntegrationState) (w : W)
      → (Step m.state to
          × (transition call m to w ≡ (
            ok,
            record m { state = to },
            notify_listeners call m.listeners m.integration_id m.state to w,
          )))
        ⊎ ((¬ Step m.state to)
            × (transition call m to w ≡ (invalid_transition m.integration_id m.state to, m, w)))
  unfolding transition
  transition_lem m to w = elim (Bool-cases (can_transition m to)) [
    | inl h ↦ inl (Step-of_can_transition m m.state to refl h, rw h)
    | inr h ↦ inr (λ s. cc (can_transition_of_Step m refl s), rw h)
  ]

  needed_of_active :
      (m : StateMachine) (tos : List IntegrationState) (w : W)
      → (transitions call m tos w).0.state ≡ active
      → Sublistᴰ (needed m.state) tos
  unfolding transitions
  needed_of_active m [] w e = rw e (Sublistᴰ.refl _)
  needed_of_active m (to ∷ tos) w e = elim (transition_lem m to w) [
    | inl (s, t) ↦
        needed-Step tos s
          (needed_of_active (record m { state = to }) tos _ (rw (t, transitions) at e))
    | inr (_, t) ↦ Sublistᴰ.cons (needed_of_active m tos w (rw (t, transitions) at e))
  ]

  -- Whatever transitions are attempted on a new integration, in whatever order: if it ends up
  -- active, the attempts contain configured, connected and active, in this order.
  pub active_needs_setup :
      (id : String) (tos : List IntegrationState) (w : W)
      → (transitions call (new id none) tos w).0.state ≡ active
      → Sublistᴰ (configured ∷ connected ∷ active ∷ []) tos
  unfolding new
  active_needs_setup id tos w e = needed_of_active (new id none) tos w e
