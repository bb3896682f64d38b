-- ===== src/Context/Strategies.antt =====
-- src/context/strategies.ts: the strategies that wait for no provider. A set of identities is a Map of
-- them.
pub mod Fitting
pub mod Oldest
mod Tests
use reins_core.Prelude.{
  ℕ, zero, suc, ◌+◌, ◌-◌, ◌*◌, max, Bool, true, false, not, ◌||◌, ◌&&◌, Option, none, some, List,
  [], ◌∷◌, ◌++◌, map, filter, length, take, get_last?, leb, ltb, if◌then◌else◌, or_else,
}
use reins_core.Prelude.Text.{Text}
use reins_core.Prelude.Eq.{text_is_eq}
use reins_core.Prelude.JsMap.{JsMap, get, set, delete, has}
use reins_core.Context.Tokenizer.{
  Role, user, assistant, system, tool, Content, text, blocks, Message, Serializers, call_tokens,
  result_tokens, estimate_tokens, estimate_message_tokens, estimate_conversation_tokens,
}

-- `context_window` is `model?.contextWindow`.
pub record TruncationOptions : Type 0 where
  pub max_tokens : ℕ
  pub reserved_tokens : ℕ
  pub context_window : Option ℕ

unfoldable pub to_effective_limit : TruncationOptions → ℕ
to_effective_limit options =
    max 1 (or_else options.context_window options.max_tokens - options.reserved_tokens)

-- The loop that takes characters off the end, on the length that is left.
shrink : (n : ℕ) → Text → (token_budget : ℕ) → Text
shrink zero content token_budget = []
shrink (suc n) content token_budget =
    let rest = shrink n content token_budget in
    if ltb token_budget (estimate_tokens (take (suc n) content)) then rest else take (suc n) content

unfoldable pub truncate_text_to_budget : Text → (token_budget : ℕ) → Text
unfolding shrink
truncate_text_to_budget content token_budget =
    if leb token_budget 1
    then []
    else (let candidate = take (token_budget * 4) content in
        shrink (length candidate) candidate token_budget)

abbrev pub is_system : Role → Bool
is_system system = true
is_system _ = false

abbrev is_user : Role → Bool
is_user user = true
is_user _ = false

abbrev is_assistant : Role → Bool
is_assistant assistant = true
is_assistant _ = false

module _ {Blocks Call : Type 0} (json : Serializers Blocks Call) where
  abbrev Messages : Type 0
  Messages = List (Message Blocks Call)

  abbrev pub is_kept : Message Blocks Call → Bool
  is_kept message = is_system message.role || message.is_summary

  abbrev pub always_keep_messages : Messages → Messages
  always_keep_messages = filter is_kept

  abbrev pub non_system_messages : Messages → Messages
  non_system_messages = filter (λ message. not (is_kept message))

  abbrev pub content_budget : Message Blocks Call → ℕ → ℕ
  content_budget message max_message_tokens = max 1 (
      max_message_tokens
      - 5
      - call_tokens json message.tool_calls
      - result_tokens json message.tool_result_id)

  abbrev pub with_content : Content Blocks → Message Blocks Call → ℕ → Message Blocks Call
  with_content (blocks b) message max_message_tokens = message
  with_content (text t) message max_message_tokens = record message {
    content = text (truncate_text_to_budget t (content_budget message max_message_tokens));
  }

  unfoldable pub truncate_message_content :
      Message Blocks Call → (max_message_tokens : ℕ) → Message Blocks Call
  unfolding truncate_text_to_budget
  truncate_message_content message max_message_tokens =
      if leb (estimate_message_tokens json message) max_message_tokens
      then message
      else with_content message.content message max_message_tokens

  abbrev behind : Message Blocks Call → Option Messages → Option Messages
  behind message none = none
  behind message (some dropped) = some (message ∷ dropped)

  -- `findIndex` and `splice`, where there is a message to drop.
  unfoldable pub drop_first : Messages → Option Messages
  drop_first [] = none
  drop_first (message ∷ messages) =
      let rest = drop_first messages in
      if is_kept message then behind message rest else some messages

  -- The loop of `DropOldestStrategy`, one unit of fuel for each message.
  drop_until : (fuel effective_limit : ℕ) → Messages → Messages
  unfolding drop_first
  drop_until zero effective_limit next = next
  drop_until (suc fuel) effective_limit next =
      if leb (estimate_conversation_tokens json next) effective_limit
      then next
      else elim (drop_first next) [
        | none ↦ next
        | some shorter ↦ drop_until fuel effective_limit shorter
      ]

  abbrev pub drop_oldest_by : ℕ → Messages → Messages
  drop_oldest_by effective_limit next =
      if leb (estimate_conversation_tokens json next) effective_limit
      then next
      else map (λ message. truncate_message_content message (max 1 (effective_limit - 3))) next

  -- `DropOldestStrategy.truncate`
  unfoldable pub drop_oldest : Messages → TruncationOptions → Messages
  unfolding drop_until to_effective_limit truncate_message_content
  drop_oldest messages options =
      let effective_limit = to_effective_limit options in
      drop_oldest_by effective_limit (drop_until (length messages) effective_limit messages)

  abbrev Ids : Type 0
  Ids = JsMap Text (Unit {0})

  abbrev ids_of : Messages → Ids → Ids
  ids_of [] ids = ids
  ids_of (message ∷ messages) ids = ids_of messages (set ids message.id tt)

  abbrev without_ids : Messages → Ids → Ids
  without_ids [] ids = ids
  without_ids (message ∷ messages) ids = without_ids messages (delete ids message.id)

  abbrev preserve_message_order : Messages → Ids → Messages
  preserve_message_order source keep = filter (λ message. has keep message.id) source

  -- One chunk is taken into the selection, unless it is too much.
  abbrev select_chunk : (effective_limit : ℕ) → Messages → Messages → Ids → Ids
  select_chunk effective_limit messages chunk ids =
      let added = ids_of chunk ids in
      if leb (estimate_conversation_tokens json (preserve_message_order messages added))
        effective_limit
      then added
      else without_ids chunk added

  -- The loop from the last chunk to the first.
  abbrev select_chunks : (effective_limit : ℕ) → Messages → List Messages → Ids → Ids
  select_chunks effective_limit messages [] ids = ids
  select_chunks effective_limit messages (chunk ∷ chunks) ids =
      select_chunk effective_limit messages chunk
        (select_chunks effective_limit messages chunks ids)

  -- What is left where the selection is empty or too much, by the last message that is no system one.
  abbrev pub last_resort :
      (effective_limit : ℕ) → Messages → Option (Message Blocks Call) → Messages
  last_resort effective_limit always_keep none =
      map (λ message. truncate_message_content message (max 1 (effective_limit - 3))) always_keep
  last_resort effective_limit always_keep (some latest) =
      always_keep
      ++ truncate_message_content latest
          (max 1 (effective_limit - estimate_conversation_tokens json always_keep))
        ∷ []

  abbrev is_filled : Messages → Bool
  is_filled [] = false
  is_filled (message ∷ messages) = true

  abbrev pub selected_or : (effective_limit : ℕ) → Messages → Messages → Messages
  selected_or effective_limit selected messages =
      if is_filled selected && leb (estimate_conversation_tokens json selected) effective_limit
      then selected
      else last_resort effective_limit (always_keep_messages messages)
          (get_last? (non_system_messages messages))

  abbrev pub truncate_by_chunks : List Messages → Messages → TruncationOptions → Messages
  truncate_by_chunks chunks messages options =
      let effective_limit = to_effective_limit options in
      if leb (estimate_conversation_tokens json messages) effective_limit
      then messages
      else selected_or effective_limit
          (preserve_message_order messages (
            select_chunks effective_limit messages chunks
              (ids_of (always_keep_messages messages) [])))
          messages

  -- `SlidingWindowStrategy.truncate`, which selects message by message.
  unfoldable pub sliding_window : Messages → TruncationOptions → Messages
  unfolding to_effective_limit truncate_message_content
  sliding_window messages options =
      truncate_by_chunks (map (λ message. message ∷ []) (non_system_messages messages)) messages
        options

  -- The chunks of `KeepSystemAndRecentStrategy`: a question with its answer, or a single message; the
  -- first argument is the message before, if it is in no chunk yet.
  abbrev chunks_after : Option (Message Blocks Call) → Messages → List Messages
  chunks_after none [] = []
  chunks_after (some current) [] = (current ∷ []) ∷ []
  chunks_after none (next ∷ messages) = chunks_after (some next) messages
  chunks_after (some current) (next ∷ messages) =
      let together = (current ∷ next ∷ []) ∷ chunks_after none messages in
      let alone = (current ∷ []) ∷ chunks_after (some next) messages in
      if is_user current.role && is_assistant next.role then together else alone

  -- `KeepSystemAndRecentStrategy.truncate`
  unfoldable pub keep_system_and_recent : Messages → TruncationOptions → Messages
  unfolding to_effective_limit truncate_message_content
  keep_system_and_recent messages options =
      truncate_by_chunks (chunks_after none (non_system_messages messages)) messages options
