-- ===== src/Browser.antt =====
-- src/browser: the references that a snapshot of a page gives to its elements.
pub mod ElementRefRegistry
