-- ===== src/Context/Tokenizer.antt =====
-- src/context/tokenizer.ts and the messages of src/types/conversation.ts, as far as they are read.
-- Blocks of content and tool calls are given from outside with their `JSON.stringify`.
use reins_core.Prelude.{
  ℕ, ◌+◌, ◌/◌, max, Bool, true, false, ◌||◌, Option, some, List, [], ◌∷◌, any, filter, length, ◌==◌,
  if◌then◌else◌,
}
use reins_core.Prelude.Text.{Text, units, trim, is_space}

pub data Role : Type 0 where
  user assistant system tool : Role

pub data Content (Blocks : Type 0) : Type 0 where
  text : Text → Content Blocks
  blocks : Blocks → Content Blocks

module _ (Blocks Call : Type 0) where
  -- A list of calls that is left out is empty.
  pub record Message : Type 0 where
    pub id : Text
    pub role : Role
    pub content : Content Blocks
    pub is_summary : Bool
    pub tool_calls : List Call
    pub tool_result_id : Option Text

  pub record Serializers : Type 0 where
    pub stringify_blocks : Blocks → Text
    pub stringify_calls : List Call → Text

-- The class of `SEGMENT_SPLIT_REGEX`.
unfoldable pub is_separator : ℕ → Bool
is_separator c = is_space c || any (λ d. c == d) (units ".,!?;:()[]{}\"'`~@#$%^&*+=<>\\/|_-")

abbrev cons_head : ℕ → List Text → List Text
cons_head c [] = (c ∷ []) ∷ []
cons_head c (t ∷ ts) = (c ∷ t) ∷ ts

-- The pieces between single separators, which are those between runs of them and empty ones.
split_segments : Text → List Text
split_segments [] = [] ∷ []
split_segments (c ∷ cs) =
    let rest = split_segments cs in if is_separator c then [] ∷ rest else cons_head c rest

abbrev is_filled : Text → Bool
is_filled [] = false
is_filled (c ∷ cs) = true

estimate_trimmed : Text → ℕ
unfolding split_segments is_separator
estimate_trimmed [] = 1
estimate_trimmed (c ∷ cs) =
    max 1 (max (length (filter is_filled (split_segments (c ∷ cs)))) ((length (c ∷ cs) + 3) / 4))

unfoldable pub estimate_tokens : Text → ℕ
unfolding estimate_trimmed trim
estimate_tokens content = estimate_trimmed (trim content)

module _ {Blocks Call : Type 0} (json : Serializers Blocks Call) where
  -- `serializeContent`
  abbrev pub serialize_content : Content Blocks → Text
  serialize_content (text t) = t
  serialize_content (blocks b) = json.stringify_blocks b

  abbrev pub call_tokens : List Call → ℕ
  call_tokens [] = 0
  call_tokens (call ∷ calls) = estimate_tokens (json.stringify_calls (call ∷ calls))

  -- An empty identity is none.
  abbrev pub result_tokens : Option Text → ℕ
  result_tokens (some (c ∷ cs)) = estimate_tokens (c ∷ cs)
  result_tokens _ = 0

  unfoldable pub estimate_message_tokens : Message Blocks Call → ℕ
  estimate_message_tokens message =
      4
      + 1
      + estimate_tokens (serialize_content message.content)
      + call_tokens message.tool_calls
      + result_tokens message.tool_result_id

  abbrev pub sum_tokens : List (Message Blocks Call) → ℕ
  sum_tokens [] = 0
  sum_tokens (message ∷ messages) = estimate_message_tokens message + sum_tokens messages

  unfoldable pub estimate_conversation_tokens : List (Message Blocks Call) → ℕ
  estimate_conversation_tokens messages = 3 + sum_tokens messages
