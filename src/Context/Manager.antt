-- ===== src/Context/Manager.antt =====
-- src/context/manager.ts: `ContextManager` over a strategy that waits for nothing. Where the source throws,
-- the result is none.
pub mod Limits
use reins_core.Prelude.{
  ℕ, ◌+◌, ◌-◌, Bool, true, false, ◌||◌, Option, none, some, List, [], ◌∷◌, any, leb, ltb,
  if◌then◌else◌, or_else,
}
use reins_core.Prelude.Text.{Text, units, trim}
use reins_core.Prelude.Eq.{text_is_eq}
use reins_core.Prelude.JsMap.{JsMap, get}
use reins_core.Context.Tokenizer.{
  Role, system, text, Message, Serializers, estimate_conversation_tokens,
}
use reins_core.Context.Strategies.{TruncationOptions, is_system}

-- `context_window` is `model?.contextWindow`, `model_id` the identity where it is not empty.
pub record PrepareOptions : Type 0 where
  pub max_tokens : Option ℕ
  pub reserved_for_output : Option ℕ
  pub system_prompt : Option Text
  pub context_window : Option ℕ
  pub model_id : Option Text

module _ {Blocks Call : Type 0} (json : Serializers Blocks Call) where
  pub record ContextManagerConfig : Type 0 where
    pub strategy : List (Message Blocks Call) → TruncationOptions → List (Message Blocks Call)
    pub default_max_tokens : Option ℕ
    pub model_token_limits : JsMap Text ℕ

  abbrev first_limit : Option ℕ → Option ℕ → Option ℕ
  first_limit none rest = rest
  first_limit (some n) rest = if ltb 0 n then some n else rest

  abbrev limit_of_model : JsMap Text ℕ → Option Text → Option ℕ
  limit_of_model limits none = none
  limit_of_model limits (some model_id) = get limits model_id

  abbrev given_or : Option ℕ → Option ℕ → Option ℕ
  given_or (some n) rest = some n
  given_or none rest = rest

  unfoldable pub resolve_max_tokens : ContextManagerConfig → PrepareOptions → Option ℕ
  resolve_max_tokens config options = given_or options.max_tokens (
      first_limit options.context_window (
        first_limit (limit_of_model config.model_token_limits options.model_id)
          config.default_max_tokens))

  abbrev with_prompt : Text → List (Message Blocks Call) → List (Message Blocks Call)
  with_prompt [] messages = messages
  with_prompt (c ∷ cs) messages =
      if any (λ message. is_system message.role) messages
      then messages
      else record {
        id = units "system_prompt";
        role = system;
        content = text (c ∷ cs);
        is_summary = false;
        tool_calls = [];
        tool_result_id = none;
      }
        ∷ messages

  unfoldable pub ensure_system_prompt :
      List (Message Blocks Call) → Option Text → List (Message Blocks Call)
  ensure_system_prompt messages none = messages
  ensure_system_prompt messages (some prompt) = with_prompt (trim prompt) messages

  abbrev pub prepare_within :
      ContextManagerConfig
      → List (Message Blocks Call)
      → PrepareOptions
      → (max_tokens reserved : ℕ) → Option (List (Message Blocks Call))
  prepare_within config prepared options max_tokens reserved =
      if ltb reserved max_tokens
      then some (
          if leb (estimate_conversation_tokens json prepared) (max_tokens - reserved)
          then prepared
          else config.strategy prepared (record {
            max_tokens = max_tokens;
            reserved_tokens = reserved;
            context_window = options.context_window;
          }))
      else none

  abbrev pub prepare_by :
      ContextManagerConfig
      → List (Message Blocks Call)
      → PrepareOptions
      → Option ℕ
      → Option (List (Message Blocks Call))
  prepare_by config prepared options none = none
  prepare_by config prepared options (some max_tokens) =
      prepare_within config prepared options max_tokens (or_else options.reserved_for_output 0)

  unfoldable pub prepare :
      ContextManagerConfig
      → List (Message Blocks Call)
      → PrepareOptions
      → Option (List (Message Blocks Call))
  unfolding ensure_system_prompt resolve_max_tokens
  prepare config messages options =
      prepare_by config (ensure_system_prompt messages options.system_prompt) options
        (resolve_max_tokens config options)
