-- ===== src/Harness/AgentLoop/Provider/Rounds.antt =====
-- What a round of a run over a provider yields.
use reins_core.Prelude.{
  append_nil, ℕ, suc, ◌+◌, ◌≤◌, ◌<◌, ◌≡◌, ◌≢◌, refl, sym, ◌∙◌, subst, ◌⊎◌, inl, inr, Bool, Option,
  none, some, Option-cases, List, [], ◌∷◌, ◌++◌, leb, arith, Bool-cases, All, All-append,
}
use reins_core.Prelude.Text.{Text, units, text_eq}
use reins_core.Harness.Tools.{ToolCall, ToolResult, throws}
use reins_core.Harness.AgentLoop.Provider.Parts
use reins_core.Harness.AgentLoop.Provider.Parts.{StreamEvent, Compaction, LoopEvent}
use reins_core.Harness.AgentLoop.Provider.Data.{
  Environment, State, Streamed, StreamEnd, read, failed, rejected, Round, goes_on, stops, thrown,
}
use reins_core.Harness.AgentLoop.Provider.Stream.{is_aborted, read_stream, nothing_read}
use reins_core.Harness.AgentLoop.Provider
use reins_core.Harness.AgentLoop.Provider.{
  executor_with, execute_until, execute_calls, call_events, use_tools, count_step, after_calls,
  after_stream, compaction_events, round, before, loop, initial, run_with_provider,
}
use reins_core.Harness.AgentLoop.Provider.Grammar.{
  IsPlain, Body, nothing, calls_tools, Body-append, Body-plain, Gave, Broke, IsBegun, IsLast,
}
use reins_core.Harness.AgentLoop.Provider.Pieces.{
  IsFirst, execute_calls-IsFirst, execute_calls-Answered,
}
use reins_core.Harness.AgentLoop.Provider.Reading.{read_stream-IsPlain, IsDue, read_stream-IsDue}

module _ {Arguments Value Given Usage W : Type 0} (env : Environment Arguments Value Given Usage W)
    (max_steps : ℕ) where
  -- What a round yields after `n` groups; one that goes on has a group, and counts a step.
  abbrev pub RoundYields : ℕ → Round Arguments Value Given Usage W → Type 0
  RoundYields n (goes_on events next) =
      Body env max_steps 1 events × (n < max_steps) × (next.steps_used ≡ suc n)
  RoundYields n (stops events last) =
      (groups : ℕ) × Body env max_steps groups events × IsLast env max_steps (n + groups) last
  RoundYields n (thrown events) =
      Body env max_steps 0 events
      × ((message : Text) × Broke env max_steps rejected (throws message))

  -- The signal of an execution is that of the tool context or that of the loop.
  execution_signal-cases :
      (given : W → Bool)
      → Provider.execution_signal env max_steps env.tool_signal ≡ some given
      → (env.tool_signal ≡ some given) ⊎ (env.loop_signal ≡ some given)
  execution_signal-cases given h = elim (Option-cases env.tool_signal) [
    | inl missing ↦ inr (rw missing at h)
    | inr (signal, there) ↦ inl (there ∙ (rw there at h))
  ]

  IsBegun-of_IsFirst :
      (streamed : Streamed Arguments Usage) (calls begun : List (ToolCall Arguments))
      → Gave env max_steps (read streamed)
      → streamed.tool_calls ≡ calls
      → calls ≢ []
      → IsFirst env max_steps (Provider.execution_signal env max_steps env.tool_signal) calls begun
      → IsBegun env max_steps begun
  IsBegun-of_IsFirst streamed calls begun gave same some_calls (left, all, inl whole) =
      (streamed, gave, (λ e. some_calls (sym same ∙ e)), (left, all ∙ sym same, inl whole))
  IsBegun-of_IsFirst streamed calls begun gave same some_calls
        (left, all, inr (given, signal, gone)) =
      (
        streamed,
        gave,
        (λ e. some_calls (sym same ∙ e)),
        (left, all ∙ sym same, inr (given, execution_signal-cases given signal, gone)),
      )

  module _ (streamed : Streamed Arguments Usage) (gave : Gave env max_steps (read streamed)) where
    use_tools-RoundYields :
        (events : List (LoopEvent Arguments Value Usage)) (usage : Option Usage)
        (calls : List (ToolCall Arguments)) (s : State Arguments Value Given Usage W) (n : ℕ)
        → streamed.tool_calls ≡ calls
        → calls ≢ []
        → Body env max_steps 0 events
        → n < max_steps
        → s.steps_used ≡ suc n
        → RoundYields n (use_tools env max_steps events usage calls s)
    unfolding use_tools
    use_tools-RoundYields events usage calls s n same some_calls body room steps =
        let signal = Provider.execution_signal env max_steps env.tool_signal in
        let run : List (ToolCall Arguments) × List (ToolResult Value) × W =
          execute_calls env max_steps signal calls s.world in
        let group = call_events env max_steps run.0 run.1 in
        let answered = execute_calls-Answered env max_steps signal calls s.world in
        let begun =
          IsBegun-of_IsFirst streamed calls run.0 gave same some_calls
            (execute_calls-IsFirst env max_steps signal calls s.world) in
        let called : Body env max_steps 1 group =
          subst (Body env max_steps 1) (append_nil group)
            (calls_tools 0 run.0 run.1 [] begun answered nothing) in
        let all = Body-append env max_steps 0 1 events group body called in
        elim (Bool-cases (is_aborted env run.2)) [
          | inl gone ↦
              rw gone
                (1, all, (omega (arith, steps), refl, (inl (omega (arith, steps)), (run.2, gone))))
          | inr here ↦ rw here (all, room, steps)
        ]

    count_step-RoundYields :
        (events : List (LoopEvent Arguments Value Usage)) (usage : Option Usage)
        (calls : List (ToolCall Arguments)) (s : State Arguments Value Given Usage W)
        → streamed.tool_calls ≡ calls
        → calls ≢ []
        → Body env max_steps 0 events
        → s.steps_used ≤ max_steps
        → RoundYields s.steps_used (count_step env max_steps events usage calls s)
    count_step-RoundYields events usage calls s same some_calls body within =
        let guard = Provider.tracked env max_steps s.guard calls in
        let s' : State Arguments Value Given Usage W = record s {
          steps_used = suc s.steps_used;
          guard = guard;
        } in
        elim (Bool-cases (leb max_steps s.steps_used)) [
          | inl full ↦ rw full (0, body, (within, refl, (omega arith, ground arith)))
          | inr room ↦ rw room (elim (Bool-cases (Provider.escalates env max_steps guard)) [
            | inl stuck ↦ rw stuck (0, body, (ground arith, refl, omega arith))
            | inr fine ↦ rw fine (elim (Bool-cases (is_aborted env s.world)) [
              | inl gone ↦
                  rw gone (0, body, (ground arith, refl, (inr (omega arith), (s.world, gone))))
              | inr here ↦ rw here (
                  use_tools-RoundYields events usage calls s' s.steps_used same some_calls body
                    (ground arith) refl)
            ])
          ])
        ]

    after_calls-RoundYields :
        (events : List (LoopEvent Arguments Value Usage)) (calls : List (ToolCall Arguments))
        (s : State Arguments Value Given Usage W)
        → streamed.tool_calls ≡ calls
        → Body env max_steps 0 events
        → s.steps_used ≤ max_steps
        → RoundYields s.steps_used (after_calls env max_steps events streamed calls s)
    after_calls-RoundYields events [] s same body within =
        (0, body, (within, refl, (omega arith, streamed, gave, inl same, refl, refl)))
    after_calls-RoundYields events (call ∷ calls) s same body within =
        elim (Bool-cases (text_eq streamed.finish_reason (units "tool_use"))) [
          | inl tools ↦ rw tools (
              count_step-RoundYields events streamed.usage (call ∷ calls) _ same (λ e. cc) body
                within)
          | inr other ↦
              rw other
                (0, body, (within, refl, (omega arith, streamed, gave, inr other, refl, refl)))
        ]

  with_text-steps :
      (t : Text) (s : State Arguments Value Given Usage W)
      → (Provider.with_text env max_steps t s).steps_used ≡ s.steps_used
  with_text-steps [] s = refl
  with_text-steps (c ∷ cs) s = refl

  -- A stream of the provider came to this end, by one of its pulls.
  abbrev Came : StreamEnd Arguments Usage → Type 0
  Came end =
      (messages : List (Parts.ProviderMessage Arguments Given)) × (w : W) × ((read_stream env
          (env.stream messages w).0 (nothing_read env) (env.stream messages w).1).1
        ≡ end)
      × IsDue env max_steps (env.stream messages w).0 end

  after_stream-RoundYields :
      (events : List (LoopEvent Arguments Value Usage)) (end : StreamEnd Arguments Usage)
      (s : State Arguments Value Given Usage W)
      → Came end
      → Body env max_steps 0 events
      → s.steps_used ≤ max_steps
      → RoundYields s.steps_used (after_stream env max_steps events end s)
  after_stream-RoundYields events rejected s (messages, w, e, (message, due)) body within =
      (body, (message, (messages, w, e, due)))
  after_stream-RoundYields events (failed message) s (messages, w, e, due) body within =
      (0, body, (messages, w, e, due))
  after_stream-RoundYields events (read streamed) s (messages, w, e, _) body within =
      let s' = Provider.with_text env max_steps streamed.text_output s in
      let steps = with_text-steps streamed.text_output s in
      elim (Bool-cases (is_aborted env s.world)) [
        | inl gone ↦ rw gone (0, body, (within, refl, (inl (omega arith), (s.world, gone))))
        | inr here ↦ rw here (
            subst
              (λ n.
                RoundYields n (after_calls env max_steps events streamed streamed.tool_calls s'))
              steps
              (after_calls-RoundYields streamed (messages, w, e) events streamed.tool_calls s' refl
                body (omega (arith, steps))))
      ]

  compaction_events-IsPlain :
      (event : Option Compaction) → All IsPlain (compaction_events env max_steps event)
  compaction_events-IsPlain none = tt
  compaction_events-IsPlain (some event) = (tt, tt)

  pub round-RoundYields :
      (s : State Arguments Value Given Usage W)
      → s.steps_used ≤ max_steps
      → RoundYields s.steps_used (round env max_steps s)
  unfolding round
  round-RoundYields s within =
      let (compacted, messages, w) = env.compact s.messages s.world in
      let (pulls, w') = env.stream messages w in
      let plain = read_stream-IsPlain env max_steps pulls (nothing_read env) w' in
      let (events, end, w'') = read_stream env pulls (nothing_read env) w' in
      let all = compaction_events env max_steps compacted ++ events in
      let body =
        Body-plain env max_steps all
          (All-append IsPlain _ events (compaction_events-IsPlain compacted) plain) in
      elim (Bool-cases (is_aborted env s.world)) [
        | inl gone ↦ rw gone (0, nothing, (within, refl, (inl (omega arith), (s.world, gone))))
        | inr here ↦ rw here (
            after_stream-RoundYields all end (record s { messages = messages; world = w'' })
              (messages, w, refl, read_stream-IsDue env max_steps pulls (nothing_read env) w') body
              within)
      ]
