-- ===== src/Cron/NextRun/Search.antt =====
-- The search for the next run, minute by minute.
use reins_core.Prelude.{
  ℕ, zero, suc, ◌+◌, ◌-◌, ◌*◌, ◌/◌, ◌%◌, ◌≤◌, ◌<◌, ◌≡◌, refl, inl, inr, Bool, true, false, Option,
  none, some, List, arith, Bool-cases, subst, sym,
}
use reins_core.Prelude.Text.{Text}
use reins_core.Cron.Job.{Job}
use reins_core.Cron.Expression.{Result, ok, err, next_run_compute_failed, parse_cron_expression}
use reins_core.Cron.NextRun.{
  PartKind, is_job_due, probe, first_candidate, search_from, compute_next_run_at, minute_ms,
  max_next_run_search_minutes,
}

search_minutes : max_next_run_search_minutes ≡ 527040
unfolding max_next_run_search_minutes
search_minutes = refl

module _ (number : Text → Option ℕ) (format_to_parts : Text → ℕ → Option (List (PartKind × Text)))
    (valid_timezone : Text → Bool) where
  abbrev due : Job → ℕ → Bool
  due = is_job_due number format_to_parts valid_timezone

  abbrev search : ℕ → Job → ℕ → Option ℕ
  search = search_from number format_to_parts valid_timezone

  -- The candidate of a round.
  abbrev at_round : ℕ → ℕ → ℕ
  at_round candidate k = candidate + k * 60000

  -- None of the first k candidates is due.
  abbrev NoneDue : Job → ℕ → ℕ → Type 0
  NoneDue job candidate k = (j : ℕ) → j < k → due job (at_round candidate j) ≡ false

  NoneDue-suc :
      (job : Job) (candidate k : ℕ)
      → due job candidate ≡ false
      → NoneDue job (candidate + minute_ms) k
      → NoneDue job candidate (suc k)
  NoneDue-suc job candidate k miss before zero lt =
      subst (λ u. due job u ≡ false) (omega arith) miss
  NoneDue-suc job candidate k miss before (suc j) lt =
      subst (λ u. due job u ≡ false) (omega arith) (before j (omega arith))

  abbrev Found : ℕ → Job → ℕ → ℕ → Type 0
  Found rounds job candidate t =
      (k : ℕ) × (k < rounds)
      × (t ≡ at_round candidate k)
      × (due job t ≡ true)
      × NoneDue job candidate k

  Found-suc :
      (rounds : ℕ) (job : Job) (candidate t : ℕ)
      → due job candidate ≡ false
      → Found rounds job (candidate + minute_ms) t
      → Found (suc rounds) job candidate t
  Found-suc rounds job candidate t miss (k, lt, same, hit, before) =
      (suc k, omega arith, omega arith, hit, NoneDue-suc job candidate k miss before)

  search-some :
      (rounds : ℕ) (job : Job) (candidate t : ℕ)
      → search rounds job candidate ≡ some t
      → Found rounds job candidate t
  unfolding search_from
  search-some zero job candidate t e = cc
  search-some (suc rounds) job candidate t e = elim (Bool-cases (due job candidate)) [
    | inl hit ↦
        let same : candidate ≡ t = ground arith in
        (
          0,
          omega arith,
          omega arith,
          subst (λ u. due job u ≡ true) same hit,
          λ j lt. absurd (omega arith),
        )
    | inr miss ↦
        Found-suc rounds job candidate t miss
          (search-some rounds job (candidate + minute_ms) t (ground arith))
  ]

  search-none :
      (rounds : ℕ) (job : Job) (candidate : ℕ)
      → search rounds job candidate ≡ none
      → NoneDue job candidate rounds
  unfolding search_from
  search-none zero job candidate e = λ j lt. absurd (omega arith)
  search-none (suc rounds) job candidate e = elim (Bool-cases (due job candidate)) [
    | inl hit ↦ ground arith
    | inr miss ↦
        NoneDue-suc job candidate rounds miss
          (search-none rounds job (candidate + minute_ms) (ground arith))
  ]

  -- A whole minute after `from` is a candidate.
  round_of_minute :
      (from t : ℕ)
      → from < t
      → t % 60000 ≡ 0
      → t ≡ at_round (first_candidate from) ((t - first_candidate from) / 60000)
  round_of_minute from t later whole = omega arith

  abbrev compute : Text → Text → ℕ → Result ℕ
  compute = compute_next_run_at number format_to_parts valid_timezone

  compute-search :
      (schedule timezone : Text) (from t : ℕ)
      → compute schedule timezone from ≡ ok t
      → search max_next_run_search_minutes (probe schedule timezone from) (first_candidate from)
        ≡ some t
  unfolding compute_next_run_at
  compute-search schedule timezone from t e = ground arith

  no_minute_before :
      (job : Job) (from k u : ℕ)
      → NoneDue job (first_candidate from) k
      → from < u
      → u < at_round (first_candidate from) k
      → u % 60000 ≡ 0
      → due job u ≡ false
  no_minute_before job from k u none_due later before whole =
      subst (λ v. due job v ≡ false) (sym (round_of_minute from u later whole))
        (none_due ((u - first_candidate from) / 60000) (omega arith))

  abbrev IsFirst : Job → ℕ → ℕ → Type 0
  IsFirst job from t =
      (from < t)
      × (t % 60000 ≡ 0)
      × (t ≤ from + 527040 * 60000)
      × (due job t ≡ true)
      × ((u : ℕ) → from < u → u < t → u % 60000 ≡ 0 → due job u ≡ false)

  IsFirst-of_Found :
      (rounds : ℕ) (job : Job) (from t : ℕ)
      → rounds ≡ 527040
      → Found rounds job (first_candidate from) t
      → IsFirst job from t
  IsFirst-of_Found rounds job from t limit (k, lt, same, hit, before) = (
    omega arith,
    omega arith,
    omega arith,
    hit,
    λ u later sooner whole. no_minute_before job from k u before later (omega arith) whole,
  )

  -- A computed next run is a whole minute after the given time, at most 527040 minutes away, at
  -- which the schedule is due, and the schedule is due at no whole minute before it.
  pub compute_next_run_at-first :
      (schedule timezone : Text) (from t : ℕ)
      → compute schedule timezone from ≡ ok t
      → (from < t)
        × (t % 60000 ≡ 0)
        × (t ≤ from + 527040 * 60000)
        × (due (probe schedule timezone from) t ≡ true)
        × ((u : ℕ)
            → from < u
            → u < t
            → u % 60000 ≡ 0
            → due (probe schedule timezone from) u ≡ false)
  compute_next_run_at-first schedule timezone from t e =
      IsFirst-of_Found max_next_run_search_minutes (probe schedule timezone from) from t
        search_minutes
        (search-some max_next_run_search_minutes (probe schedule timezone from)
          (first_candidate from) t (compute-search schedule timezone from t e))

  compute-search_failed :
      (schedule timezone : Text) (from : ℕ)
      → compute schedule timezone from ≡ err next_run_compute_failed
      → search max_next_run_search_minutes (probe schedule timezone from) (first_candidate from)
        ≡ none
  unfolding compute_next_run_at parse_cron_expression
  compute-search_failed schedule timezone from e = ground arith

  -- The computation gives up only if the schedule is due at no whole minute of the 527040 minutes
  -- after the minute of the given time.
  pub compute_next_run_at-failed :
      (schedule timezone : Text) (from u : ℕ)
      → compute schedule timezone from ≡ err next_run_compute_failed
      → from < u
      → u ≤ from - from % 60000 + 527040 * 60000
      → u % 60000 ≡ 0
      → due (probe schedule timezone from) u ≡ false
  compute_next_run_at-failed schedule timezone from u e later within whole =
      no_minute_before (probe schedule timezone from) from max_next_run_search_minutes u
        (search-none max_next_run_search_minutes (probe schedule timezone from)
          (first_candidate from) (compute-search_failed schedule timezone from e))
        later (omega (arith, search_minutes)) whole
