-- ===== src/Harness/AgentLoop/Provider/Reading.antt =====
-- The events of a stream, and what its end is due to.
use reins_core.Prelude.{
  ℕ, ◌≡◌, refl, inl, inr, Bool, true, false, List, [], ◌∷◌, ◌++◌, All, All-append,
}
use reins_core.Prelude.Text.{Text}
use reins_core.Harness.Tools.{Attempt, returns, throws}
use reins_core.Harness.AgentLoop.Provider.Parts
use reins_core.Harness.AgentLoop.Provider.Parts.{StreamEvent, Compaction, LoopEvent}
use reins_core.Harness.AgentLoop.Provider.Data.{
  Environment, Streamed, Reading, reads_on, breaks, rejects, fails, StreamEnd, read, failed,
  rejected,
}
use reins_core.Harness.AgentLoop.Provider.Stream.{is_aborted, read_event, read_pull, read_stream}
use reins_core.Harness.AgentLoop.Provider.Grammar.{IsPlain, AnswersIn}

module _ {Arguments Value Given Usage W : Type 0} (env : Environment Arguments Value Given Usage W)
    (max_steps : ℕ) where
  -- What a stream yields is plain.
  abbrev ReadsPlain : Reading Arguments Value Usage → Type 0
  ReadsPlain (reads_on events s) = All IsPlain events
  ReadsPlain _ = Unit

  read_event-ReadsPlain :
      (event : StreamEvent Arguments Usage) (s : Streamed Arguments Usage)
      → ReadsPlain (read_event env event s)
  read_event-ReadsPlain (Parts.token content) s = (tt, tt)
  read_event-ReadsPlain (Parts.thinking content) s = (tt, tt)
  read_event-ReadsPlain (Parts.tool_call_start call) s = tt
  read_event-ReadsPlain (Parts.error message) s = tt
  read_event-ReadsPlain (Parts.done usage finish_reason) s = tt
  read_event-ReadsPlain Parts.ignored s = tt

  read_pull-ReadsPlain :
      (answer : Attempt (StreamEvent Arguments Usage)) (gone : Bool) (s : Streamed Arguments Usage)
      → ReadsPlain (read_pull env answer gone s)
  read_pull-ReadsPlain (throws message) gone s = tt
  read_pull-ReadsPlain (returns event) true s = tt
  read_pull-ReadsPlain (returns event) false s = read_event-ReadsPlain event s

  read_on :
      List (W → Attempt (StreamEvent Arguments Usage) × W)
      → Reading Arguments Value Usage
      → Streamed Arguments Usage
      → W
      → List (LoopEvent Arguments Value Usage) × StreamEnd Arguments Usage × W
  read_on pulls reading s w' = elim reading [
    | reads_on events s' ↦
        let (more, end, w'') = read_stream env pulls s' w' in (events ++ more, end, w'')
    | breaks ↦ ([], read s, w')
    | rejects ↦ ([], rejected, w')
    | fails message ↦ ([], failed message, w')
  ]

  read_on-IsPlain :
      (pulls : List (W → Attempt (StreamEvent Arguments Usage) × W))
      (reading : Reading Arguments Value Usage) (s : Streamed Arguments Usage) (w : W)
      → ReadsPlain reading
      → ((s' : Streamed Arguments Usage) → All IsPlain (read_stream env pulls s' w).0)
      → All IsPlain (read_on pulls reading s w).0
  unfolding read_on
  read_on-IsPlain pulls (reads_on events s') s w plain rest =
      All-append IsPlain events _ plain (rest s')
  read_on-IsPlain pulls breaks s w plain rest = tt
  read_on-IsPlain pulls rejects s w plain rest = tt
  read_on-IsPlain pulls (fails message) s w plain rest = tt

  pub read_stream-IsPlain :
      (pulls : List (W → Attempt (StreamEvent Arguments Usage) × W)) (s : Streamed Arguments Usage)
      (w : W)
      → All IsPlain (read_stream env pulls s w).0
  unfolding read_stream read_on
  read_stream-IsPlain [] s w = tt
  read_stream-IsPlain (pull ∷ pulls) s w =
      let (answer, w') = pull w in
      let gone = is_aborted env w' in
      read_on-IsPlain pulls (read_pull env answer gone s) s w' (read_pull-ReadsPlain answer gone s)
        (λ s'. read_stream-IsPlain pulls s' w')

  -- An end that is not that of a whole stream is due to one of its pulls.
  abbrev pub IsDue :
      List (W → Attempt (StreamEvent Arguments Usage) × W) → StreamEnd Arguments Usage → Type 0
  IsDue pulls (read streamed) = Unit
  IsDue pulls (failed message) = AnswersIn env max_steps pulls (returns (Parts.error message))
  IsDue pulls rejected = (message : Text) × AnswersIn env max_steps pulls (throws message)

  IsDue-cons :
      (pull : W → Attempt (StreamEvent Arguments Usage) × W)
      (pulls : List (W → Attempt (StreamEvent Arguments Usage) × W))
      (end : StreamEnd Arguments Usage)
      → IsDue pulls end
      → IsDue (pull ∷ pulls) end
  IsDue-cons pull pulls (read streamed) h = tt
  IsDue-cons pull pulls (failed message) h = inr h
  IsDue-cons pull pulls rejected (message, h) = (message, inr h)

  -- What a pull that ends the reading answers.
  abbrev IsCause : Attempt (StreamEvent Arguments Usage) → Reading Arguments Value Usage → Type 0
  IsCause answer (reads_on events s) = Unit
  IsCause answer breaks = Unit
  IsCause answer rejects = (message : Text) × (answer ≡ throws message)
  IsCause answer (fails message) = answer ≡ returns (Parts.error message)

  read_event-IsCause :
      (event : StreamEvent Arguments Usage) (s : Streamed Arguments Usage)
      → IsCause (returns event) (read_event env event s)
  read_event-IsCause (Parts.token content) s = tt
  read_event-IsCause (Parts.thinking content) s = tt
  read_event-IsCause (Parts.tool_call_start call) s = tt
  read_event-IsCause (Parts.error message) s = refl
  read_event-IsCause (Parts.done usage finish_reason) s = tt
  read_event-IsCause Parts.ignored s = tt

  read_pull-IsCause :
      (answer : Attempt (StreamEvent Arguments Usage)) (gone : Bool) (s : Streamed Arguments Usage)
      → IsCause answer (read_pull env answer gone s)
  read_pull-IsCause (throws message) gone s = (message, refl)
  read_pull-IsCause (returns event) true s = tt
  read_pull-IsCause (returns event) false s = read_event-IsCause event s

  read_on-IsDue :
      (pull : W → Attempt (StreamEvent Arguments Usage) × W)
      (pulls : List (W → Attempt (StreamEvent Arguments Usage) × W))
      (reading : Reading Arguments Value Usage) (s : Streamed Arguments Usage) (v w : W)
      → IsCause (pull v).0 reading
      → ((s' : Streamed Arguments Usage) → IsDue pulls (read_stream env pulls s' w).1)
      → IsDue (pull ∷ pulls) (read_on pulls reading s w).1
  unfolding read_on
  read_on-IsDue pull pulls (reads_on events s') s v w cause rest =
      IsDue-cons pull pulls (read_stream env pulls s' w).1 (rest s')
  read_on-IsDue pull pulls breaks s v w cause rest = tt
  read_on-IsDue pull pulls rejects s v w (message, cause) rest = (message, inl (v, cause))
  read_on-IsDue pull pulls (fails message) s v w cause rest = inl (v, cause)

  pub read_stream-IsDue :
      (pulls : List (W → Attempt (StreamEvent Arguments Usage) × W)) (s : Streamed Arguments Usage)
      (w : W)
      → IsDue pulls (read_stream env pulls s w).1
  unfolding read_stream read_on
  read_stream-IsDue [] s w = tt
  read_stream-IsDue (pull ∷ pulls) s w =
      let (answer, w') = pull w in
      let gone = is_aborted env w' in
      read_on-IsDue pull pulls (read_pull env answer gone s) s w w'
        (read_pull-IsCause answer gone s) (λ s'. read_stream-IsDue pulls s' w')
