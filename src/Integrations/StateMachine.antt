-- ===== src/Integrations/StateMachine.antt =====
-- src/integrations/state-machine.ts: `IntegrationStateMachine`. A listener is a number, its identity;
-- what it does is the parameter `call`, which acts on a world of its own and may throw.
pub mod Lifecycle
pub mod Listeners
mod Tests
use reins_core.Prelude.{
  ℕ, String, Bool, true, false, Option, none, some, List, [], ◌∷◌, ◌++◌, ◌==◌, any, filter, not,
  if◌then◌else◌, or_else,
}

pub data IntegrationState : Type 0 where
  installed configured connected active suspended disconnected : IntegrationState

abbrev ordinal : IntegrationState → ℕ
ordinal installed = 0
ordinal configured = 1
ordinal connected = 2
ordinal active = 3
ordinal suspended = 4
ordinal disconnected = 5

abbrev pub valid_transitions : IntegrationState → List IntegrationState
valid_transitions installed = configured ∷ disconnected ∷ []
valid_transitions configured = connected ∷ disconnected ∷ []
valid_transitions connected = active ∷ disconnected ∷ []
valid_transitions active = suspended ∷ disconnected ∷ []
valid_transitions suspended = active ∷ disconnected ∷ []
valid_transitions disconnected = installed ∷ []

pub record StateMachine : Type 0 where
  pub integration_id : String
  pub state : IntegrationState
  pub listeners : List ℕ

pub data Outcome : Type 0 where
  ok : Outcome
  invalid_transition : (integration_id : String) (from to : IntegrationState) → Outcome

-- The constructor; the initial state defaults to `installed`.
pub new : String → Option IntegrationState → StateMachine
new integration_id initial_state = record {
  integration_id = integration_id;
  state = or_else initial_state installed;
  listeners = [];
}

abbrev includes : List IntegrationState → IntegrationState → Bool
includes states to = any (λ s. ordinal s == ordinal to) states

pub can_transition : StateMachine → IntegrationState → Bool
can_transition m to = includes (valid_transitions m.state) to

-- A `Set` keeps the order in which listeners were first added.
pub add_listener : StateMachine → ℕ → StateMachine
add_listener m listener =
    if any (λ l. l == listener) m.listeners
    then m
    else record m { listeners = m.listeners ++ listener ∷ [] }

pub remove_listener : StateMachine → ℕ → StateMachine
remove_listener m listener = record m { listeners = filter (λ l. not (l == listener)) m.listeners }

-- `call listener id from to w` is the world that the listener leaves, and what it threw, if it did.
module _ {W : Type 0}
    (call : ℕ → String → IntegrationState → IntegrationState → W → W × Option String) where
  -- Each call stands in a `try` whose `catch` only logs.
  pub notify_listeners : List ℕ → String → IntegrationState → IntegrationState → W → W
  notify_listeners [] integration_id from to w = w
  notify_listeners (l ∷ ls) integration_id from to w =
      notify_listeners ls integration_id from to (call l integration_id from to w).0

  pub transition : StateMachine → IntegrationState → W → Outcome × StateMachine × W
  unfolding can_transition
  transition m to w =
      if can_transition m to
      then (ok, record m { state = to }, notify_listeners m.listeners m.integration_id m.state to w)
      else (invalid_transition m.integration_id m.state to, m, w)

  -- A run of attempted transitions; the refused ones are passed over.
  pub transitions : StateMachine → List IntegrationState → W → StateMachine × W
  unfolding transition
  transitions m [] w = (m, w)
  transitions m (to ∷ tos) w = let (outcome, m', w') = transition m to w in transitions m' tos w'
