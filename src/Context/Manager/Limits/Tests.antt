-- ===== src/Context/Manager/Limits/Tests.antt =====
-- A limit below the window of the model.
use reins_core.Prelude.{
  ℕ, ◌+◌, ◌-◌, ◌<◌, ◌≤◌, max, ◌≡◌, refl, none, some, List, [], ◌∷◌, get_last?, or_else, arith,
  false,
}
use reins_core.Prelude.Text.{units, trim}
use reins_core.Context.Tokenizer.{
  user, text, Message, Serializers, is_separator, estimate_tokens, estimate_message_tokens,
  estimate_conversation_tokens,
}
use reins_core.Context.Strategies.{always_keep_messages, non_system_messages, sliding_window}
use reins_core.Context.Strategies.Fitting.{least_tokens}
use reins_core.Context.Manager.{PrepareOptions, ContextManagerConfig, ensure_system_prompt, prepare}
use reins_core.Context.Manager.Limits.{IsSent, prepare_limits}

abbrev json : Serializers ℕ ℕ
json = record { stringify_blocks = λ b. units "[]"; stringify_calls = λ calls. units "[]" }

abbrev config : ContextManagerConfig json
config = record {
  strategy = sliding_window json;
  default_max_tokens = none;
  model_token_limits = [];
}

abbrev options : PrepareOptions
options = record {
  max_tokens = some 12;
  reserved_for_output = some 2;
  system_prompt = some (units " Be brief. ");
  context_window = some 100;
  model_id = none;
}

abbrev question : List (Message ℕ ℕ)
question =
    record {
      id = units "m1";
      role = user;
      content = text (units "What is a kernel?");
      is_summary = false;
      tool_calls = [];
      tool_result_id = none;
    }
    ∷ []

abbrev prepared : List (Message ℕ ℕ)
prepared = ensure_system_prompt json question options.system_prompt

abbrev latest : Message ℕ ℕ
latest = record {
  id = units "m1";
  role = user;
  content = text (units "What is a kernel?");
  is_summary = false;
  tool_calls = [];
  tool_result_id = none;
}

latest_is_last : get_last? (non_system_messages json prepared) ≡ some latest
unfolding ensure_system_prompt trim
latest_is_last = refl

room :
    estimate_conversation_tokens json (always_keep_messages json prepared)
      + least_tokens json latest
    ≤ max 1 (100 - or_else options.reserved_for_output 0)
unfolding estimate_conversation_tokens estimate_message_tokens estimate_tokens trim is_separator
    ensure_system_prompt
room = omega arith

-- The question is over the limit of 12, and is sent whole.
over :
    (12 < estimate_conversation_tokens json prepared)
    × (prepare json config question options ≡ some prepared)
unfolding estimate_conversation_tokens estimate_message_tokens estimate_tokens trim is_separator
    ensure_system_prompt prepare sliding_window
over = (omega arith, refl)

prepare_limits_example :
    (sent : List (Message ℕ ℕ)) × (prepare json config question options ≡ some sent)
    × IsSent json (max (12 - 2) (max 1 (100 - 2))) (max 1 (100 - 2)) prepared sent
prepare_limits_example =
    prepare_limits json config question options 12 100 latest (units "What is a kernel?") refl refl
      refl (omega arith) latest_is_last refl room
