-- ===== src/Context/Strategies/Tests.antt =====
-- A short conversation with a system message and a long question.
use reins_core.Prelude.{ℕ, ◌+◌, ◌≤◌, ◌≡◌, refl, none, List, [], ◌∷◌, map, arith, false}
use reins_core.Prelude.Text.{Text, units, trim}
use reins_core.Prelude.JsMap.{get, set, delete}
use reins_core.Context.Tokenizer.{
  Role, user, assistant, system, text, Message, Serializers, is_separator, estimate_tokens,
  estimate_message_tokens, estimate_conversation_tokens,
}
use reins_core.Context.Strategies.{
  TruncationOptions, to_effective_limit, always_keep_messages, drop_first, drop_oldest,
  sliding_window, keep_system_and_recent,
}
use reins_core.Context.Strategies.Fitting.{least_tokens, windows_fit}
use reins_core.Context.Strategies.Oldest.{IsDropped, SendsAll, drop_oldest_lem}

abbrev json : Serializers ℕ ℕ
json = record { stringify_blocks = λ b. units "[]"; stringify_calls = λ calls. units "[]" }

abbrev message : Text → Role → Text → Message ℕ ℕ
message id role content = record {
  id = id;
  role = role;
  content = text content;
  is_summary = false;
  tool_calls = [];
  tool_result_id = none;
}

abbrev latest : Message ℕ ℕ
latest = message (units "m4") user (units "And now, in one word?")

abbrev conversation : List (Message ℕ ℕ)
conversation =
    message (units "m1") system (units "Be brief.")
    ∷ message (units "m2") user (units "What is a kernel, a shell and a terminal?")
    ∷ message (units "m3") assistant (units "Programs.")
    ∷ latest
    ∷ []

-- Six words and separators.
six_tokens : estimate_tokens (units "  a-b (c, d) e.f ") ≡ 6
unfolding estimate_tokens trim is_separator
six_tokens = refl

abbrev options : TruncationOptions
options = record { max_tokens = 40; reserved_tokens = 8; context_window = none }

-- The window drops the long question in the middle and keeps what is around it.
middle_dropped :
    map (λ m. m.id) (sliding_window json conversation options)
    ≡ units "m1" ∷ units "m3" ∷ units "m4" ∷ []
unfolding sliding_window estimate_conversation_tokens estimate_message_tokens estimate_tokens trim
    is_separator get set delete
middle_dropped = refl

oldest_dropped :
    map (λ m. m.id) (drop_oldest json conversation options)
    ≡ units "m1" ∷ units "m3" ∷ units "m4" ∷ []
unfolding drop_oldest estimate_conversation_tokens estimate_message_tokens estimate_tokens trim
    is_separator drop_first
oldest_dropped = refl

room :
    estimate_conversation_tokens json (always_keep_messages json conversation)
      + least_tokens json latest
    ≤ to_effective_limit options
unfolding estimate_conversation_tokens estimate_message_tokens estimate_tokens trim is_separator
    to_effective_limit
room = omega arith

windows_fit_example :
    (estimate_conversation_tokens json (sliding_window json conversation options)
      ≤ to_effective_limit options)
    × (estimate_conversation_tokens json (keep_system_and_recent json conversation options)
        ≤ to_effective_limit options)
windows_fit_example =
    windows_fit json conversation options latest (units "And now, in one word?") refl refl room

drop_oldest_lem_example :
    (left : List (Message ℕ ℕ)) × IsDropped json (to_effective_limit options) conversation left
    × (always_keep_messages json left ≡ always_keep_messages json conversation)
    × SendsAll json (to_effective_limit options) left (drop_oldest json conversation options)
drop_oldest_lem_example = drop_oldest_lem json conversation options
