-- ===== src/Context/Strategies/Fitting.antt =====
-- What fits the limit after a truncation.
use reins_core.Prelude.{
  ℕ, zero, suc, ◌+◌, ◌-◌, ◌*◌, ◌≤◌, max, ◌≡◌, sym, subst, inl, inr, ◌&&◌, some, List, [], ◌∷◌, ◌++◌,
  length, take, get_last?, leb, ltb, Bool-cases, arith,
}
use reins_core.Prelude.Text.{Text, trim}
use reins_core.Context.Tokenizer.{
  text, Message, Serializers, call_tokens, result_tokens, estimate_tokens, estimate_message_tokens,
  sum_tokens, estimate_conversation_tokens,
}
use reins_core.Context.Strategies.{
  TruncationOptions, to_effective_limit, shrink, truncate_text_to_budget, always_keep_messages,
  non_system_messages, content_budget, with_content, truncate_message_content, last_resort,
  is_filled, selected_or, truncate_by_chunks, sliding_window, keep_system_and_recent,
}

shrink-le :
    (n : ℕ) (content : Text) (budget : ℕ)
    → 1 ≤ budget
    → estimate_tokens (shrink n content budget) ≤ budget
unfolding shrink estimate_tokens trim
shrink-le zero content budget h = h
shrink-le (suc n) content budget h =
    elim (Bool-cases (ltb budget (estimate_tokens (take (suc n) content)))) [
      | inl long ↦ rw long (shrink-le n content budget h)
      | inr short ↦ rw short (ground arith)
    ]

truncate_text_to_budget-le :
    (content : Text) (budget : ℕ)
    → 1 ≤ budget
    → estimate_tokens (truncate_text_to_budget content budget) ≤ budget
unfolding truncate_text_to_budget estimate_tokens trim
truncate_text_to_budget-le content budget h = elim (Bool-cases (leb budget 1)) [
  | inl small ↦ rw small h
  | inr more ↦
      rw more (shrink-le (length (take (budget * 4) content)) (take (budget * 4) content) budget h)
]

module _ {Blocks Call : Type 0} (json : Serializers Blocks Call) where
  -- The tokens of a message whose text is empty.
  abbrev pub least_tokens : Message Blocks Call → ℕ
  least_tokens message =
      6 + call_tokens json message.tool_calls + result_tokens json message.tool_result_id

  with_content-le :
      (t : Text) (message : Message Blocks Call) (m : ℕ)
      → least_tokens message ≤ m
      → estimate_message_tokens json (with_content json (text t) message m) ≤ m
  unfolding estimate_message_tokens
  with_content-le t message m h =
      let budget = content_budget json message m in
      let cut = truncate_text_to_budget-le t budget (omega arith) in omega (arith, cut)

  truncate_message_content-le :
      (message : Message Blocks Call) (t : Text) (m : ℕ)
      → message.content ≡ text t
      → least_tokens message ≤ m
      → estimate_message_tokens json (truncate_message_content json message m) ≤ m
  unfolding truncate_message_content
  truncate_message_content-le message t m e h =
      elim (Bool-cases (leb (estimate_message_tokens json message) m)) [
        | inl fits ↦ rw fits (ground arith)
        | inr long ↦ rw long (
            subst (λ c. estimate_message_tokens json (with_content json c message m) ≤ m) (sym e)
              (with_content-le t message m h))
      ]

  pub sum_tokens-append :
      (xs ys : List (Message Blocks Call))
      → sum_tokens json (xs ++ ys) ≡ sum_tokens json xs + sum_tokens json ys
  sum_tokens-append [] ys = omega arith
  sum_tokens-append (x ∷ xs) ys = omega (arith, sum_tokens-append xs ys)

  last_resort-le :
      (limit : ℕ) (kept : List (Message Blocks Call)) (latest : Message Blocks Call) (t : Text)
      → latest.content ≡ text t
      → estimate_conversation_tokens json kept + least_tokens latest ≤ limit
      → estimate_conversation_tokens json (last_resort json limit kept (some latest)) ≤ limit
  unfolding estimate_conversation_tokens
  last_resort-le limit kept latest t e h =
      let room = max 1 (limit - (3 + sum_tokens json kept)) in
      let cut = truncate_message_content-le latest t room e (omega arith) in
      let total = sum_tokens-append kept (truncate_message_content json latest room ∷ []) in
      omega (arith, cut, total)

  selected_or-le :
      (limit : ℕ) (selected messages : List (Message Blocks Call)) (latest : Message Blocks Call)
      (t : Text)
      → get_last? (non_system_messages json messages) ≡ some latest
      → latest.content ≡ text t
      → estimate_conversation_tokens json (always_keep_messages json messages) + least_tokens latest
        ≤ limit
      → estimate_conversation_tokens json (selected_or json limit selected messages) ≤ limit
  selected_or-le limit selected messages latest t last e h =
      let kept = always_keep_messages json messages in
      let resort = last_resort-le limit kept latest t e h in
      elim (Bool-cases
        (is_filled json selected && leb (estimate_conversation_tokens json selected) limit)) [
          | inl fits ↦ rw fits (ground arith)
          | inr over ↦ rw (over, last) resort
        ]

  truncate_by_chunks-le :
      (chunks : List (List (Message Blocks Call))) (messages : List (Message Blocks Call))
      (options : TruncationOptions) (latest : Message Blocks Call) (t : Text)
      → get_last? (non_system_messages json messages) ≡ some latest
      → latest.content ≡ text t
      → estimate_conversation_tokens json (always_keep_messages json messages) + least_tokens latest
        ≤ to_effective_limit options
      → estimate_conversation_tokens json (truncate_by_chunks json chunks messages options)
        ≤ to_effective_limit options
  truncate_by_chunks-le chunks messages options latest t last e h =
      elim (Bool-cases
        (leb (estimate_conversation_tokens json messages) (to_effective_limit options))) [
          | inl fits ↦ rw fits (ground arith)
          | inr over ↦
              rw over (selected_or-le (to_effective_limit options) _ messages latest t last e h)
        ]

  -- If the last message that is no system message has a text for its content, and if the limit leaves
  -- room for the system messages and for that message with an empty text, then what the sliding
  -- window and what the strategy of pairs send fits the limit.
  pub windows_fit :
      (messages : List (Message Blocks Call)) (options : TruncationOptions)
      (latest : Message Blocks Call) (t : Text)
      → get_last? (non_system_messages json messages) ≡ some latest
      → latest.content ≡ text t
      → estimate_conversation_tokens json (always_keep_messages json messages) + least_tokens latest
        ≤ to_effective_limit options
      → (estimate_conversation_tokens json (sliding_window json messages options)
          ≤ to_effective_limit options)
        × (estimate_conversation_tokens json (keep_system_and_recent json messages options)
            ≤ to_effective_limit options)
  unfolding sliding_window keep_system_and_recent
  windows_fit messages options latest t last e h = (
    truncate_by_chunks-le _ messages options latest t last e h,
    truncate_by_chunks-le _ messages options latest t last e h,
  )
