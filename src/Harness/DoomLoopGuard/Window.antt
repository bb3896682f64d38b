-- ===== src/Harness/DoomLoopGuard/Window.antt =====
-- The window of recent signatures, seen as the end of the whole history of tool calls.
use mathlib.Core.List.{append_assoc, append-nil, map-append}
use reins_core.Prelude.{
  ℕ, ◌≡◌, ap, sym, ◌∙◌, ◌≤◌, String, List, [], ◌∷◌, ◌++◌, map, arith, length, take_last,
  length-take_last, take_last-append, drop-nil, ◌-◌,
}
use reins_core.Harness.DoomLoopGuard.{Options, DoomLoopGuard, new, track}

-- Batches of tool calls tracked one after the other, within one turn.
pub track_all {ℓ} :
    {Call : Type ℓ} → (Call → String) → DoomLoopGuard → List (List Call) → DoomLoopGuard
track_all to_signature g [] = g
track_all to_signature g (calls ∷ batches) =
    track_all to_signature (track to_signature g calls) batches

abbrev pub concat {ℓ} : {A : Type ℓ} → List (List A) → List A
concat [] = []
concat (xs ∷ xss) = xs ++ concat xss

take_last_nil : (n : ℕ) → take_last {A = String} n [] ≡ []
take_last_nil n = drop-nil (0 - n)

module _ {ℓ} {Call : Type ℓ} (to_signature : Call → String) where
  track_all-history :
      (g : DoomLoopGuard) (history : List String) (batches : List (List Call))
      → g.recent_call_signatures ≡ take_last g.window_size history
      → (track_all to_signature g batches).recent_call_signatures
        ≡ take_last g.window_size (history ++ map to_signature (concat batches))
  unfolding track_all track
  track_all-history g history [] e = rw (append-nil history) e
  track_all-history g history (calls ∷ batches) e =
      track_all-history (track to_signature g calls) (history ++ map to_signature calls) batches
        kept
      ∙ ap (take_last g.window_size) regrouped
    where
      kept :
          take_last g.window_size (g.recent_call_signatures ++ map to_signature calls)
          ≡ take_last g.window_size (history ++ map to_signature calls)
      kept =
          ap (λ s. take_last g.window_size (s ++ map to_signature calls)) e
          ∙ take_last-append g.window_size history (map to_signature calls)

      regrouped :
          (history ++ map to_signature calls) ++ map to_signature (concat batches)
          ≡ history ++ map to_signature (calls ++ concat batches)
      regrouped = rw (map-append to_signature calls (concat batches)) (append_assoc history _ _)

  -- After any batches of calls tracked by a new guard, the window holds the signatures of the last
  -- calls of the whole history, as many as the window size or all of them if they are fewer.
  pub window_of_history :
      (o : Options) (batches : List (List Call))
      → ((track_all to_signature (new o) batches).recent_call_signatures
          ≡ take_last (new o).window_size (map to_signature (concat batches)))
        × (length (track_all to_signature (new o) batches).recent_call_signatures
            ≤ (new o).window_size)
  unfolding new
  window_of_history o batches =
      let same = track_all-history (new o) [] batches (sym (take_last_nil (new o).window_size)) in
      (
        same,
        rw same (
            omega
              (arith, length-take_last (new o).window_size (map to_signature (concat batches)))),
      )
