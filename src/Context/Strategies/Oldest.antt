-- ===== src/Context/Strategies/Oldest.antt =====
-- What `DropOldestStrategy` drops.
use reins_core.Prelude.{
  ℕ, zero, suc, ◌-◌, ◌≤◌, ◌<◌, max, ◌≡◌, refl, ap, subst, ◌∙◌, ◌⊎◌, inl, inr, true, Option, none,
  some, List, [], ◌∷◌, map, length, leb, Bool-cases, arith, if◌then◌else◌,
}
use reins_core.Context.Tokenizer.{Message, Serializers, estimate_conversation_tokens}
use reins_core.Context.Strategies.{
  TruncationOptions, to_effective_limit, is_kept, always_keep_messages, non_system_messages,
  truncate_message_content, behind, drop_first, drop_until, drop_oldest_by, drop_oldest,
}

module _ {Blocks Call : Type 0} (json : Serializers Blocks Call) where
  abbrev Messages : Type 0
  Messages = List (Message Blocks Call)

  -- The messages without the first k of those that are neither a system message nor a summary.
  abbrev pub without_oldest : ℕ → Messages → Messages
  without_oldest zero messages = messages
  without_oldest (suc k) [] = []
  without_oldest (suc k) (message ∷ messages) =
      if is_kept json message
      then message ∷ without_oldest (suc k) messages
      else without_oldest k messages

  abbrev tokens : Messages → ℕ
  tokens = estimate_conversation_tokens json

  -- The system messages and the summaries stay.
  pub always_keep-without_oldest :
      (k : ℕ) (messages : Messages)
      → always_keep_messages json (without_oldest k messages) ≡ always_keep_messages json messages
  always_keep-without_oldest zero messages = refl
  always_keep-without_oldest (suc k) [] = refl
  always_keep-without_oldest (suc k) (message ∷ messages) =
      elim (Bool-cases (is_kept json message)) [
        | inl kept ↦
            rw (kept, kept) (ap (λ ms. message ∷ ms) (always_keep-without_oldest (suc k) messages))
        | inr dropped ↦ rw dropped (always_keep-without_oldest k messages)
      ]

  without_oldest-one :
      (k : ℕ) (messages : Messages)
      → without_oldest 1 (without_oldest k messages) ≡ without_oldest (suc k) messages
  without_oldest-one zero messages = refl
  without_oldest-one (suc k) [] = refl
  without_oldest-one (suc k) (message ∷ messages) = elim (Bool-cases (is_kept json message)) [
    | inl kept ↦ rw (kept, kept) (ap (λ ms. message ∷ ms) (without_oldest-one (suc k) messages))
    | inr dropped ↦ rw dropped (without_oldest-one k messages)
  ]

  -- Whether there is a message to drop, and what is left.
  abbrev DropsOne : Messages → Option Messages → Type 0
  DropsOne messages none = non_system_messages json messages ≡ []
  DropsOne messages (some shorter) =
      (shorter ≡ without_oldest 1 messages) × (length messages ≡ suc (length shorter))

  behind-DropsOne :
      (message : Message Blocks Call) (messages : Messages) (rest : Option Messages)
      → is_kept json message ≡ true
      → DropsOne messages rest
      → DropsOne (message ∷ messages) (behind json message rest)
  behind-DropsOne message messages none kept h = rw kept h
  behind-DropsOne message messages (some shorter) kept (same, size) =
      (rw kept (ap (λ ms. message ∷ ms) same), omega (arith, size))

  drop_first-DropsOne : (messages : Messages) → DropsOne messages (drop_first json messages)
  unfolding drop_first
  drop_first-DropsOne [] = refl
  drop_first-DropsOne (message ∷ messages) = elim (Bool-cases (is_kept json message)) [
    | inl kept ↦ rw kept (
        behind-DropsOne message messages (drop_first json messages) kept
          (drop_first-DropsOne messages))
    | inr dropped ↦ rw dropped (rw dropped refl, refl)
  ]

  -- With one message less dropped the rest is too much.
  abbrev pub IsLeast : (limit : ℕ) → Messages → ℕ → Type 0
  IsLeast limit messages zero = Unit
  IsLeast limit messages (suc k) =
      limit < estimate_conversation_tokens json (without_oldest k messages)

  -- What the loop leaves: it dropped the k oldest, not one too many, and it stopped where the rest fits
  -- or has nothing to drop.
  abbrev pub IsDropped : (limit : ℕ) → Messages → Messages → Type 0
  IsDropped limit messages left =
      (k : ℕ) × (left ≡ without_oldest k messages)
      × IsLeast limit messages k
      × ((estimate_conversation_tokens json left ≤ limit) ⊎ (non_system_messages json left ≡ []))

  after_drop :
      (fuel limit k : ℕ) (messages left : Messages) (dropped : Option Messages)
      → left ≡ without_oldest k messages
      → limit < tokens left
      → IsLeast limit messages k
      → length left ≤ suc fuel
      → DropsOne left dropped
      → ((shorter : Messages)
          → shorter ≡ without_oldest (suc k) messages
          → limit < tokens (without_oldest k messages)
          → length shorter ≤ fuel
          → IsDropped limit messages (drop_until json fuel limit shorter))
      → IsDropped limit messages
          (elim dropped [ none ↦ left | some shorter ↦ drop_until json fuel limit shorter ])
  after_drop fuel limit k messages left none same over least size nothing rest =
      (k, same, least, inr nothing)
  after_drop fuel limit k messages left (some shorter) same over least size (drops, one) rest =
      rest shorter (drops ∙ ap (without_oldest 1) same ∙ without_oldest-one k messages)
        (subst (λ ms. limit < tokens ms) same over) (omega (arith, one))

  drop_until-IsDropped :
      (fuel limit k : ℕ) (messages left : Messages)
      → left ≡ without_oldest k messages
      → IsLeast limit messages k
      → length left ≤ fuel
      → IsDropped limit messages (drop_until json fuel limit left)
  unfolding drop_until
  drop_until-IsDropped zero limit k messages [] same least size = (k, same, least, inr refl)
  drop_until-IsDropped zero limit k messages (m ∷ ms) same least size = absurd (omega arith)
  drop_until-IsDropped (suc fuel) limit k messages left same least size =
      elim (Bool-cases (leb (estimate_conversation_tokens json left) limit)) [
        | inl fits ↦ rw fits (k, same, least, inl (ground arith))
        | inr over ↦ rw over (
            after_drop fuel limit k messages left (drop_first json left) same (ground arith) least
              size (drop_first-DropsOne left)
              (λ shorter drops more size'.
                drop_until-IsDropped fuel limit (suc k) messages shorter drops more size'))
      ]

  -- What is sent of what the loop leaves.
  abbrev pub SendsAll : (limit : ℕ) → Messages → Messages → Type 0
  SendsAll limit left sent =
      ((estimate_conversation_tokens json left ≤ limit) × (sent ≡ left))
      ⊎ ((limit < estimate_conversation_tokens json left)
          × (sent
              ≡ map (λ message. truncate_message_content json message (max 1 (limit - 3))) left))

  drop_oldest_by-SendsAll :
      (limit : ℕ) (left : Messages) → SendsAll limit left (drop_oldest_by json limit left)
  drop_oldest_by-SendsAll limit left =
      elim (Bool-cases (leb (estimate_conversation_tokens json left) limit)) [
        | inl fits ↦ rw fits (inl (ground arith, refl))
        | inr over ↦ rw over (inr (ground arith, refl))
      ]

  -- The strategy drops the k oldest of the messages that are neither system messages nor summaries, for
  -- the least k after which the rest fits the limit or nothing is left to drop; all others stay, in
  -- their order. What is left is sent as it is if it fits, and otherwise with each message cut down
  -- to the limit by itself.
  pub drop_oldest_lem :
      (messages : Messages) (options : TruncationOptions)
      → (left : Messages) × IsDropped (to_effective_limit options) messages left
        × (always_keep_messages json left ≡ always_keep_messages json messages)
        × SendsAll (to_effective_limit options) left (drop_oldest json messages options)
  unfolding drop_oldest
  drop_oldest_lem messages options =
      let limit = to_effective_limit options in
      let left : Messages = drop_until json (length messages) limit messages in
      let (k, same, least, ends) =
        drop_until-IsDropped (length messages) limit 0 messages messages refl tt (omega arith) in
      (
        left,
        (k, same, least, ends),
        ap (always_keep_messages json) same ∙ always_keep-without_oldest k messages,
        drop_oldest_by-SendsAll limit left,
      )
