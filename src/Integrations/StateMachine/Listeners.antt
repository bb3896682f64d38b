-- ===== src/Integrations/StateMachine/Listeners.antt =====
-- Who is told of a transition: `addListener`, `removeListener` and `notifyListeners`.
use reins_core.Prelude.{
  ℕ, ◌+◌, ◌≡◌, refl, String, Bool, true, false, Option, List, [], ◌∷◌, ◌++◌, arith, ◌==◌,
  if◌then◌else◌, any, filter, not, count, ◌≢◌, ◌∙◌, sym,
}
use mathlib.Core.List.{append_assoc, append-nil}
use reins_core.Integrations.StateMachine.{
  IntegrationState, StateMachine, new, add_listener, remove_listener, notify_listeners,
}

-- What callers do to the set of listeners.
pub data Request : Type 0 where
  adds removes : ℕ → Request

abbrev pub apply : StateMachine → Request → StateMachine
apply m (adds l) = add_listener m l
apply m (removes l) = remove_listener m l

pub requests : StateMachine → List Request → StateMachine
requests m [] = m
requests m (r ∷ rs) = requests (apply m r) rs

-- Whether a listener is subscribed after the requests: the last one that names it decides.
unfoldable pub subscribed : Bool → ℕ → List Request → Bool
subscribed before l [] = before
subscribed before l (adds k ∷ rs) = subscribed (if k == l then true else before) l rs
subscribed before l (removes k ∷ rs) = subscribed (if k == l then false else before) l rs

-- A listener that records that it was called, and then throws or not.
abbrev pub recording :
    (ℕ → Option String)
    → ℕ
    → String
    → IntegrationState
    → IntegrationState
    → List ℕ
    → List ℕ × Option String
recording throws l id from to calls = (calls ++ l ∷ [], throws l)

notify_listeners-recording :
    (throws : ℕ → Option String) (ls : List ℕ) (id : String) (from to : IntegrationState)
    (calls : List ℕ)
    → notify_listeners (recording throws) ls id from to calls ≡ calls ++ ls
unfolding notify_listeners
notify_listeners-recording throws [] id from to calls = sym (append-nil calls)
notify_listeners-recording throws (l ∷ ls) id from to calls =
    notify_listeners-recording throws ls id from to (calls ++ l ∷ [])
    ∙ append_assoc calls (l ∷ []) ls

abbrev times : ℕ → List ℕ → ℕ
times l = count (λ k. k == l)

times-append :
    (l k : ℕ) (ls : List ℕ) → times l (ls ++ k ∷ []) ≡ times l ls + (if k == l then 1 else 0)
times-append l k [] = ground arith
times-append l k (x ∷ ls) = ground (arith, times-append l k ls)

times_of_any : (l : ℕ) (ls : List ℕ) → any (λ k. k == l) ls ≡ false → times l ls ≡ 0
times_of_any l [] h = refl
times_of_any l (x ∷ ls) h = ground (arith, times_of_any l ls)

any_of_times : (l : ℕ) (ls : List ℕ) → any (λ k. k == l) ls ≡ true → times l ls ≢ 0
any_of_times l [] h = cc
any_of_times l (x ∷ ls) h = ground (arith, any_of_times l ls)

times-filter :
    (l k : ℕ) (ls : List ℕ)
    → times l (filter (λ x. not (x == k)) ls) ≡ (if k == l then 0 else times l ls)
times-filter l k [] = ground arith
times-filter l k (x ∷ ls) = ground (arith, times-filter l k ls)

-- One request keeps the number of times that a listener stands in the set at one or nought.
times-apply :
    (m : StateMachine) (l : ℕ) (b : Bool) (r : Request)
    → times l m.listeners ≡ (if b then 1 else 0)
    → times l (apply m r).listeners ≡ (if subscribed b l (r ∷ []) then 1 else 0)
unfolding add_listener remove_listener subscribed
times-apply m l b (adds k) h =
    ground
      (arith, times-append l k m.listeners, times_of_any k m.listeners, any_of_times k m.listeners)
times-apply m l b (removes k) h = ground (arith, times-filter l k m.listeners)

times-requests :
    (m : StateMachine) (l : ℕ) (b : Bool) (rs : List Request)
    → times l m.listeners ≡ (if b then 1 else 0)
    → times l (requests m rs).listeners ≡ (if subscribed b l rs then 1 else 0)
unfolding requests subscribed
times-requests m l b [] h = h
times-requests m l b (adds k ∷ rs) h =
    times-requests (add_listener m k) l _ rs (unfold subscribed in times-apply m l b (adds k) h)
times-requests m l b (removes k ∷ rs) h =
    times-requests (remove_listener m k) l _ rs
      (unfold subscribed in times-apply m l b (removes k) h)

-- After any requests to a new machine, a notification calls a listener once if it is subscribed,
-- and never otherwise, whichever of the listeners throw.
pub notified_once :
    (id : String) (initial : Option IntegrationState) (rs : List Request)
    (throws : ℕ → Option String) (from to : IntegrationState) (l : ℕ)
    → let m = requests (new id initial) rs in
      count (λ k. k == l) (notify_listeners (recording throws) m.listeners id from to [])
      ≡ (if subscribed false l rs then 1 else 0)
unfolding new
notified_once id initial rs throws from to l =
    rw (notify_listeners-recording throws (requests (new id initial) rs).listeners id from to [])
      (times-requests (new id initial) l false rs refl)
