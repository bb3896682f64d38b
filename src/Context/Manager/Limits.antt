-- ===== src/Context/Manager/Limits.antt =====
-- Which limit holds for what the manager prepares.
mod Tests
use reins_core.Prelude.{
  ℕ, ◌+◌, ◌-◌, ◌≤◌, ◌<◌, max, ◌≡◌, refl, ap, ◌∙◌, subst, ◌⊎◌, inl, inr, true, Option, none, some,
  List, leb, ltb, get_last?, Bool-cases, arith, or_else,
}
use reins_core.Prelude.Text.{Text}
use reins_core.Context.Tokenizer.{text, Message, Serializers, estimate_conversation_tokens}
use reins_core.Context.Strategies.{
  TruncationOptions, to_effective_limit, always_keep_messages, non_system_messages, sliding_window,
}
use reins_core.Context.Strategies.Fitting.{least_tokens, windows_fit}
use reins_core.Context.Manager.{
  PrepareOptions, ContextManagerConfig, resolve_max_tokens, ensure_system_prompt, prepare_within,
  prepare_by, prepare, given_or,
}

le-or-lt : (a b : ℕ) → (a ≤ b) ⊎ (b < a)
le-or-lt a b = elim (Bool-cases (leb a b)) [
  | inl h ↦ inl (ground arith)
  | inr h ↦ inr (ground arith)
]

module _ {Blocks Call : Type 0} (json : Serializers Blocks Call) where
  sliding_window-fitting :
      (messages : List (Message Blocks Call)) (options : TruncationOptions)
      → estimate_conversation_tokens json messages ≤ to_effective_limit options
      → sliding_window json messages options ≡ messages
  unfolding sliding_window
  sliding_window-fitting messages options h =
      let fits : leb (estimate_conversation_tokens json messages) (to_effective_limit options)
          ≡ true =
        ground arith in
      rw fits refl

  given_or-some :
      (rest candidate : Option ℕ) (m : ℕ)
      → candidate ≡ some m
      → given_or json candidate rest ≡ some m
  given_or-some rest (some n) m e = e
  given_or-some rest none m e = cc

  -- A conversation is sent whole where it fits the bound, and is otherwise cut down to the window.
  abbrev pub IsSent : (bound window : ℕ) → (prepared sent : List (Message Blocks Call)) → Type 0
  IsSent bound window prepared sent =
      ((estimate_conversation_tokens json prepared ≤ bound) × (sent ≡ prepared))
      ⊎ ((bound < estimate_conversation_tokens json prepared)
          × (estimate_conversation_tokens json sent ≤ window))

  -- What is sent by the sliding window is whole where it fits its limit, and fits it in any case.
  sliding_window-IsSent :
      (prepared : List (Message Blocks Call)) (given : TruncationOptions) (limit : ℕ)
      (latest : Message Blocks Call) (t : Text)
      → limit < estimate_conversation_tokens json prepared
      → get_last? (non_system_messages json prepared) ≡ some latest
      → latest.content ≡ text t
      → estimate_conversation_tokens json (always_keep_messages json prepared)
          + least_tokens json latest
        ≤ to_effective_limit given
      → IsSent
          (max limit (to_effective_limit given))
          (to_effective_limit given)
          prepared
          (sliding_window json prepared given)
  sliding_window-IsSent prepared given limit latest t over last written room =
      elim (le-or-lt (estimate_conversation_tokens json prepared) (to_effective_limit given)) [
        | inl fits ↦ inl (omega arith, sliding_window-fitting prepared given fits)
        | inr long ↦
            inr (omega arith, (windows_fit json prepared given latest t last written room).0)
      ]

  prepare_within-IsSent :
      (config : ContextManagerConfig json) (prepared : List (Message Blocks Call))
      (options : PrepareOptions) (m r w : ℕ) (latest : Message Blocks Call) (t : Text)
      → config.strategy ≡ sliding_window json
      → options.context_window ≡ some w
      → r < m
      → get_last? (non_system_messages json prepared) ≡ some latest
      → latest.content ≡ text t
      → estimate_conversation_tokens json (always_keep_messages json prepared)
          + least_tokens json latest
        ≤ max 1 (w - r)
      → (sent : List (Message Blocks Call)) × (prepare_within json config prepared options m r
          ≡ some sent)
        × IsSent (max (m - r) (max 1 (w - r))) (max 1 (w - r)) prepared sent
  unfolding to_effective_limit
  prepare_within-IsSent config prepared options m r w latest t strategy window positive last written
        room =
      let there : ltb r m ≡ true = ground arith in
      let given : TruncationOptions = record {
        max_tokens = m;
        reserved_tokens = r;
        context_window = options.context_window;
      } in
      let limit : to_effective_limit given ≡ max 1 (w - r) = rw window refl in
      elim (Bool-cases (leb (estimate_conversation_tokens json prepared) (m - r))) [
        | inl fits ↦ (prepared, rw (there, fits) refl, inl (ground arith, refl))
        | inr long ↦ (
          sliding_window json prepared given,
          rw (there, long) (ap some (ap (λ f. f prepared given) strategy)),
          subst (λ n. IsSent (max (m - r) n) n prepared (sliding_window json prepared given)) limit
              (sliding_window-IsSent prepared given (m - r) latest t (ground arith) last written
                (omega (arith, limit, room))),
        )
      ]

  -- With the sliding window, a given limit that is greater than what is reserved for the output, and
  -- a model with a context window: if the last message that is no system message has a text for its
  -- content, and if the window leaves room for the system messages and for that message with an empty
  -- text, then a conversation is sent whole exactly where it fits the greater of the limit and the
  -- window, each less the reserved part, and is else cut down to the window, not to the limit.
  pub prepare_limits :
      (config : ContextManagerConfig json) (messages : List (Message Blocks Call))
      (options : PrepareOptions) (m w : ℕ) (latest : Message Blocks Call) (t : Text)
      → config.strategy ≡ sliding_window json
      → options.max_tokens ≡ some m
      → options.context_window ≡ some w
      → or_else options.reserved_for_output 0 < m
      → get_last?
          (non_system_messages json (ensure_system_prompt json messages options.system_prompt))
        ≡ some latest
      → latest.content ≡ text t
      → estimate_conversation_tokens json
            (always_keep_messages json (ensure_system_prompt json messages options.system_prompt))
          + least_tokens json latest
        ≤ max 1 (w - or_else options.reserved_for_output 0)
      → (sent : List (Message Blocks Call)) × (prepare json config messages options ≡ some sent)
        × IsSent
            (max
              (m - or_else options.reserved_for_output 0)
              (max 1 (w - or_else options.reserved_for_output 0)))
            (max 1 (w - or_else options.reserved_for_output 0))
            (ensure_system_prompt json messages options.system_prompt)
            sent
  unfolding prepare resolve_max_tokens
  prepare_limits config messages options m w latest t strategy given window positive last written
        room =
      let prepared = ensure_system_prompt json messages options.system_prompt in
      let limit : resolve_max_tokens json config options ≡ some m =
        given_or-some _ options.max_tokens m given in
      let (sent, same, is_sent) =
        prepare_within-IsSent config prepared options m (or_else options.reserved_for_output 0) w
          latest t strategy window positive last written room in
      (sent, ap (prepare_by json config prepared options) limit ∙ same, is_sent)
