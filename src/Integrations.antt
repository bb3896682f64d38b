-- ===== src/Integrations.antt =====
-- src/integrations: the life cycle of an integration.
pub mod StateMachine
