-- ===== src/Cron/Expression/Matching.antt =====
-- What a field of a cron expression matches, and what its validation ensures.
use native.Mathlib.Nat.{div-add-mod', mul-mod_left}
use reins_core.Prelude.{
  ℕ, ◌+◌, ◌-◌, ◌*◌, ◌/◌, ◌%◌, ◌≤◌, ◌≡◌, refl, sym, ◌∙◌, subst, ◌≢◌, ◌↔◌, ◌⊎◌, inl, inr, Bool, true,
  false, ◌&&◌, ◌||◌, not, Option, List, [], ◌∷◌, ◌==◌, arith, Any, All,
}
use reins_core.Prelude.Text.{Text, trim, split_on}
use reins_core.Cron.Expression.{
  CronError, Result, ok, err, ParsedFieldPart, parse_cron_field_part, check_bounds, parse_parts,
  parse_cron_field, value_in_step_range, matches_segments, matches_field,
}

-- The values of a part: those that lie a whole number of steps above its start, up to its end.
abbrev pub Denotes : ParsedFieldPart → ℕ → Type 0
Denotes part value = (k : ℕ) × (value ≡ part.start + k * part.step) × (value ≤ part.end)

stepped :
    (value start step : ℕ)
    → start ≤ value
    → (value - start) % step ≡ 0
    → value ≡ start + (value - start) / step * step
stepped value start step le e = omega (arith, div-add-mod' (value - start) step)

on_step : (value start step k : ℕ) → value ≡ start + k * step → (value - start) % step ≡ 0
on_step value start step k e =
    let d : value - start ≡ k * step = omega arith in rw d (mul-mod_left k step)

value_in_step_range_iff :
    (value : ℕ) (part : ParsedFieldPart)
    → (value_in_step_range value part.start part.end part.step ≡ true) ↔ Denotes part value
unfolding value_in_step_range
value_in_step_range_iff value part = (
  λ h. (
    (value - part.start) / part.step,
    stepped value part.start part.step (ground arith) (ground arith),
    ground arith,
  ),
  λ d. ground (arith, on_step value part.start part.step d.0 d.1),
)

or_cases :
    (a b c d : Bool)
    → (a || (b && c) || d) ≡ true
    → (a ≡ true) ⊎ ((b ≡ true) × (c ≡ true)) ⊎ (d ≡ true)
or_cases a b c d h = ground arith

module _ (number : Text → Option ℕ) where
  -- A segment of a field covers a value if it parses to a part that denotes the value.
  abbrev pub Covers : Text → ℕ → Type 0
  Covers segment value =
      (part : ParsedFieldPart) × (parse_cron_field_part number (trim segment) ≡ ok part)
      × Denotes part value

  abbrev pub CoversEither : ℕ → ℕ → Text → Type 0
  CoversEither value alias_value segment =
      Covers segment value ⊎ ((alias_value ≢ 0) × Covers segment alias_value)

  abbrev Parses : Text → Type 0
  Parses segment =
      (part : ParsedFieldPart) × (parse_cron_field_part number (trim segment) ≡ ok part)

  Result-cases {ℓ} :
      {A : Type ℓ} (r : Result A) → ((a : A) × (r ≡ ok a)) ⊎ ((e : CronError) × (r ≡ err e))
  Result-cases (ok a) = inl (a, refl)
  Result-cases (err e) = inr (e, refl)

  parse_parts-Parses :
      (lo hi : ℕ) (segments : List Text)
      → parse_parts number lo hi segments ≡ ok tt
      → All Parses segments
  unfolding parse_parts
  parse_parts-Parses lo hi [] h = tt
  parse_parts-Parses lo hi (s ∷ segments) h =
      elim (Result-cases (parse_cron_field_part number (trim s))) [
        | inl (part, e) ↦ ((part, e), parse_parts-Parses lo hi segments (ground arith))
        | inr (x, e) ↦ ground arith
      ]

  hit_of_Covers :
      (segment : Text) (part : ParsedFieldPart) (value : ℕ)
      → parse_cron_field_part number (trim segment) ≡ ok part
      → Covers segment value
      → value_in_step_range value part.start part.end part.step ≡ true
  hit_of_Covers segment part value e (other, e', d) =
      let same : other ≡ part = cc in
      (value_in_step_range_iff value part).1 (subst (λ p. Denotes p value) same d)

  segment_unrolled :
      (s : Text) (segments : List Text) (part : ParsedFieldPart) (value alias_value : ℕ)
      → parse_cron_field_part number (trim s) ≡ ok part
      → matches_segments number (s ∷ segments) value alias_value ≡ (
          value_in_step_range value part.start part.end part.step
          || (not (alias_value == 0)
              && value_in_step_range alias_value part.start part.end part.step)
          || matches_segments number segments value alias_value)
  unfolding matches_segments
  segment_unrolled s segments part value alias_value e = ground arith

  segment_iff :
      (s : Text) (segments : List Text) (part : ParsedFieldPart) (value alias_value : ℕ)
      → parse_cron_field_part number (trim s) ≡ ok part
      → (matches_segments number segments value alias_value ≡ true)
        ↔ Any (CoversEither value alias_value) segments
      → (matches_segments number (s ∷ segments) value alias_value ≡ true)
        ↔ Any (CoversEither value alias_value) (s ∷ segments)
  segment_iff s segments part value alias_value e later = (
    λ m.
        elim (or_cases (hit value) (not (alias_value == 0)) (hit alias_value)
          (matches_segments number segments value alias_value) (sym unrolled ∙ m)) [
            | inl here ↦ inl (inl (part, e, (value_in_step_range_iff value part).0 here))
            | inr (inl (set, there)) ↦
                inl (
                  inr (ground arith, (part, e, (value_in_step_range_iff alias_value part).0 there)))
            | inr (inr rest) ↦ inr (later.0 rest)
          ],
    λ c. elim c [
      | inl (inl covers) ↦ ground (arith, unrolled, hit_of_Covers s part value e covers)
      | inl (inr (set, covers)) ↦
          ground (arith, unrolled, hit_of_Covers s part alias_value e covers)
      | inr rest ↦ ground (arith, unrolled, later.1 rest)
    ],
  )
    where
      hit : ℕ → Bool
      hit v = value_in_step_range v part.start part.end part.step

      unrolled : matches_segments number (s ∷ segments) value alias_value ≡ (
          value_in_step_range value part.start part.end part.step
          || (not (alias_value == 0)
              && value_in_step_range alias_value part.start part.end part.step)
          || matches_segments number segments value alias_value)
      unrolled = segment_unrolled s segments part value alias_value e

  matches_segments_iff :
      (segments : List Text) (value alias_value : ℕ)
      → All Parses segments
      → (matches_segments number segments value alias_value ≡ true)
        ↔ Any (CoversEither value alias_value) segments
  unfolding matches_segments
  matches_segments_iff [] value alias_value h = ground arith
  matches_segments_iff (s ∷ segments) value alias_value ((part, e), h) =
      segment_iff s segments part value alias_value e
        (matches_segments_iff segments value alias_value h)

  -- A field that passes validation matches a value exactly if one of its segments covers the value
  -- or, where there is an alias, the alias.
  pub matches_field_iff :
      (field : Text) (lo hi value alias_value : ℕ)
      → parse_cron_field number field lo hi ≡ ok tt
      → (matches_field number field value alias_value ≡ true)
        ↔ Any (CoversEither value alias_value) (split_on b',' field)
  unfolding matches_field parse_cron_field
  matches_field_iff field lo hi value alias_value h =
      matches_segments_iff (split_on b',' field) value alias_value
        (parse_parts-Parses lo hi (split_on b',' field) h)

  -- What a segment covers within the bounds, unless it is a wildcard, which is not checked.
  abbrev pub CoversWithin : ℕ → ℕ → ℕ → Text → Type 0
  CoversWithin lo hi value segment =
      (part : ParsedFieldPart)
      → parse_cron_field_part number (trim segment) ≡ ok part
      → part.wildcard ≡ false
      → Denotes part value
      → (lo ≤ value) × (value ≤ hi)

  check_bounds-within :
      (lo hi value : ℕ) (part : ParsedFieldPart)
      → check_bounds number lo hi part ≡ ok tt
      → part.wildcard ≡ false
      → Denotes part value
      → (lo ≤ value) × (value ≤ hi)
  check_bounds-within lo hi value part h w (k, e, le) = ground arith

  parse_parts-within :
      (lo hi value : ℕ) (segments : List Text)
      → parse_parts number lo hi segments ≡ ok tt
      → All (CoversWithin lo hi value) segments
  unfolding parse_parts
  parse_parts-within lo hi value [] h = tt
  parse_parts-within lo hi value (s ∷ segments) h =
      elim (Result-cases (parse_cron_field_part number (trim s))) [
        | inl (part, e) ↦ (
          λ other e' w d.
              let same : part ≡ other = cc in
              check_bounds-within lo hi value other
                (subst (λ p. check_bounds number lo hi p ≡ ok tt) same (ground arith)) w d,
          parse_parts-within lo hi value segments (ground arith),
        )
        | inr (x, e) ↦ ground arith
      ]

  -- A field that passes validation covers no value outside its bounds by a segment that is no
  -- wildcard.
  pub parse_cron_field-within :
      (field : Text) (lo hi value : ℕ)
      → parse_cron_field number field lo hi ≡ ok tt
      → All (CoversWithin lo hi value) (split_on b',' field)
  unfolding parse_cron_field
  parse_cron_field-within field lo hi value h =
      parse_parts-within lo hi value (split_on b',' field) h
