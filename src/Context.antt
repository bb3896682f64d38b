-- ===== src/Context.antt =====
-- src/context: what of a conversation is sent to a model, and how its tokens are estimated.
pub mod Tokenizer
pub mod Strategies
pub mod Manager
