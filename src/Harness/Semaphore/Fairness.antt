-- ===== src/Harness/Semaphore/Fairness.antt =====
-- The permits and the order in which they are given.
use reins_core.Prelude.{
  ℕ, zero, suc, ◌+◌, ◌<◌, ◌≡◌, refl, sym, ap, ◌∙◌, ◌⊎◌, inl, inr, List, [], ◌∷◌, ◌++◌, arith,
}
use reins_core.Harness.Semaphore.{Semaphore, new, acquire, release}

-- The calls on a semaphore, with the callers that asked so far; only one that holds a permit releases.
pub data Run (limit : ℕ) : Semaphore → List ℕ → Type 0 where
  begins : Run limit (new limit) []
  acquires :
      (caller : ℕ) (s : Semaphore) (asked : List ℕ)
      → Run limit s asked
      → Run limit (acquire caller s) (asked ++ caller ∷ [])
  releases :
      (s : Semaphore) (asked : List ℕ)
      → Run limit s asked
      → 0 < s.holding
      → Run limit (release s) asked

abbrev pub IsFair : ℕ → List ℕ → Semaphore → Type 0
IsFair limit asked s =
    (s.permits + s.holding ≡ limit)
    × (s.granted ++ s.queue ≡ asked)
    × (0 < s.permits → s.queue ≡ [])

append_assoc : (xs ys zs : List ℕ) → (xs ++ ys) ++ zs ≡ xs ++ (ys ++ zs)
append_assoc [] ys zs = refl
append_assoc (x ∷ xs) ys zs = ap (λ l. x ∷ l) (append_assoc xs ys zs)

append_nil : (xs : List ℕ) → xs ++ [] ≡ xs
append_nil [] = refl
append_nil (x ∷ xs) = ap (λ l. x ∷ l) (append_nil xs)

permit-cases : (n : ℕ) → (n ≡ 0) ⊎ ((m : ℕ) × (n ≡ suc m))
permit-cases zero = inl refl
permit-cases (suc m) = inr (m, refl)

queue-cases :
    (queue : List ℕ) → (queue ≡ []) ⊎ ((next : ℕ) × (rest : List ℕ) × (queue ≡ next ∷ rest))
queue-cases [] = inl refl
queue-cases (next ∷ rest) = inr (next, rest, refl)

acquire-IsFair :
    (limit caller : ℕ) (asked : List ℕ) (s : Semaphore)
    → IsFair limit asked s
    → IsFair limit (asked ++ caller ∷ []) (acquire caller s)
unfolding acquire
acquire-IsFair limit caller asked s (held, order, idle) = elim (permit-cases s.permits) [
  | inl used ↦
      let order' : s.granted ++ (s.queue ++ caller ∷ []) ≡ asked ++ caller ∷ [] =
        sym (append_assoc s.granted s.queue (caller ∷ [])) ∙ ap (λ l. l ++ caller ∷ []) order in
      (ground (arith, held), ground (arith, order'), λ h. ground arith)
  | inr (m, left) ↦
      let empty : s.queue ≡ [] = idle (omega (arith, left)) in
      let all : s.granted ≡ asked =
        sym (append_nil s.granted) ∙ ap (λ q. s.granted ++ q) (sym empty) ∙ order in
      let order' : (s.granted ++ caller ∷ []) ++ s.queue ≡ asked ++ caller ∷ [] =
        ap (λ q. (s.granted ++ caller ∷ []) ++ q) empty
        ∙ append_nil (s.granted ++ caller ∷ [])
        ∙ ap (λ l. l ++ caller ∷ []) all in
      (ground (arith, held), ground (arith, order'), λ h. ground (arith, empty))
]

release-IsFair :
    (limit : ℕ) (asked : List ℕ) (s : Semaphore)
    → 0 < s.holding
    → IsFair limit asked s
    → IsFair limit asked (release s)
unfolding release
release-IsFair limit asked s h (held, order, idle) = elim (queue-cases s.queue) [
  | inl empty ↦ (ground (arith, held), ground (arith, order), λ k. ground (arith, empty))
  | inr (next, rest, waiting) ↦
      let order' : (s.granted ++ next ∷ []) ++ rest ≡ asked =
        append_assoc s.granted (next ∷ []) rest ∙ ap (λ q. s.granted ++ q) (sym waiting) ∙ order in
      let used : s.permits ≡ 0 = elim (permit-cases s.permits) [
        | inl z ↦ z
        | inr (m, left) ↦ absurd (cc (idle (omega (arith, left))))
      ] in
      (ground (arith, held, used), ground (arith, order'), λ k. ground (arith, used))
]

-- However callers acquire and release, the permits that are left and those that are held make up the
-- limit; the callers were given permits in the order in which they asked; and none of them waits while
-- a permit is left.
pub semaphore_is_fair :
    (limit : ℕ) (s : Semaphore) (asked : List ℕ)
    → Run limit s asked
    → (s.permits + s.holding ≡ limit)
      × (s.granted ++ s.queue ≡ asked)
      × (0 < s.permits → s.queue ≡ [])
semaphore_is_fair limit _ _ begins = (omega arith, refl, λ h. refl)
semaphore_is_fair limit _ _ (acquires caller s asked run) =
    acquire-IsFair limit caller asked s (semaphore_is_fair limit s asked run)
semaphore_is_fair limit _ _ (releases s asked run h) =
    release-IsFair limit asked s h (semaphore_is_fair limit s asked run)
