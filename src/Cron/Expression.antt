-- ===== src/Cron/Expression.antt =====
-- The cron expressions of src/cron/scheduler.ts: their fields, parsing, validation and matching.
-- `number` is the parameter for JavaScript's `Number(text)`: some n where that is the integer n,
-- none where it is no integer. A negative one is none too: the code treats it like none where a step
-- is read, and elsewhere the text holds no "-" that could give one.
pub mod Matching
mod Tests
use reins_core.Prelude.{
  ℕ, ◌-◌, ◌%◌, Bool, true, false, ◌&&◌, ◌||◌, not, Option, none, some, List, [], ◌∷◌, String, ◌==◌,
  ltb, leb, if◌then◌else◌, map,
}
use reins_core.Prelude.Text.{Text, units, text_eq, trim, split_on, split_spaces, includes}

pub data CronError : Type 0 where
  segment_empty step_invalid step_not_positive : CronError
  range_invalid range_not_integer value_not_integer : CronError
  out_of_range range_reversed five_fields : CronError
  timezone_invalid weekday_invalid time_parts_failed next_run_compute_failed : CronError
  job_id_required job_name_required job_action_required max_runs_invalid : CronError
  job_already_exists job_not_found store_failed : CronError
  field_invalid : (label : String) → CronError → CronError

pub data Result {ℓ} (A : Type ℓ) : Type ℓ where
  ok : A → Result A
  err : CronError → Result A

infixl 5 ◌>>=◌
abbrev pub ◌>>=◌ {ℓ κ} : {A : Type ℓ} {B : Type κ} → Result A → (A → Result B) → Result B
ok a >>= f = f a
err e >>= f = err e

pub record ParsedFieldPart : Type 0 where
  pub start : ℕ
  pub end : ℕ
  pub step : ℕ
  pub wildcard : Bool

pub record ParsedCronExpression : Type 0 where
  pub minute : Text
  pub hour : Text
  pub day_of_month : Text
  pub month : Text
  pub day_of_week : Text

abbrev pub max_safe_integer : ℕ
max_safe_integer = 9007199254740991

-- The first two pieces of a split, where both hold some text; the code drops further pieces.
abbrev two_pieces : List Text → Option (Text × Text)
two_pieces ((a ∷ as') ∷ (b ∷ bs) ∷ _) = some (a ∷ as', b ∷ bs)
two_pieces _ = none

unfoldable pub value_in_step_range : ℕ → ℕ → ℕ → ℕ → Bool
value_in_step_range value start end step =
    if ltb value start || ltb end value then false else (value - start) % step == 0

module _ (number : Text → Option ℕ) where
  parse_step : Text → Result ℕ
  parse_step right = elim (number right) [
    | none ↦ err step_not_positive
    | some step ↦ if step == 0 then err step_not_positive else ok step
  ]

  parse_bounds : Text × Text → Result (ℕ × ℕ)
  parse_bounds (start_text, end_text) = elim (number start_text) [
    | none ↦ err range_not_integer
    | some start ↦ elim (number end_text) [
      | none ↦ err range_not_integer
      | some end ↦ ok (start, end)
    ]
  ]

  parse_range : Text → ℕ → Result ParsedFieldPart
  unfolding parse_bounds split_on
  parse_range range_part step =
      if text_eq range_part (units "*")
      then ok (record { start = 0; end = max_safe_integer; step = step; wildcard = true })
      else if includes b'-' range_part
      then elim (two_pieces (split_on b'-' range_part)) [
        | none ↦ err range_invalid
        | some pieces ↦ do
          bounds ← parse_bounds pieces
          ok (record { start = bounds.0; end = bounds.1; step = step; wildcard = false })
      ]
      else elim (number range_part) [
        | none ↦ err value_not_integer
        | some value ↦ ok (record { start = value; end = value; step = step; wildcard = false })
      ]

  unfoldable pub parse_cron_field_part : Text → Result ParsedFieldPart
  unfolding parse_step parse_range split_on
  parse_cron_field_part [] = err segment_empty
  parse_cron_field_part (c ∷ cs) =
      if includes b'/' (c ∷ cs)
      then elim (two_pieces (split_on b'/' (c ∷ cs))) [
        | none ↦ err step_invalid
        | some (left, right) ↦ do step ← parse_step right; parse_range left step
      ]
      else parse_range (c ∷ cs) 1

  abbrev check_bounds : ℕ → ℕ → ParsedFieldPart → Result (Unit {0})
  check_bounds lo hi part =
      if part.wildcard
      then ok tt
      else if ltb part.start lo || ltb hi part.end
      then err out_of_range
      else if ltb part.end part.start
      then err range_reversed
      else ok tt

  parse_parts : ℕ → ℕ → List Text → Result (Unit {0})
  parse_parts lo hi [] = ok tt
  parse_parts lo hi (part ∷ parts) = do
    parsed ← parse_cron_field_part (trim part)
    _ ← check_bounds lo hi parsed
    parse_parts lo hi parts

  -- A split has at least one piece, so the test for an empty list of parts never passes.
  unfoldable pub parse_cron_field : Text → ℕ → ℕ → Result (Unit {0})
  unfolding parse_parts parse_cron_field_part trim split_on
  parse_cron_field field lo hi = parse_parts lo hi (split_on b',' field)

  -- The loop over the segments. The wildcard branch makes the same two tests as the other one.
  matches_segments : List Text → ℕ → ℕ → Bool
  matches_segments [] value alias_value = false
  matches_segments (segment ∷ segments) value alias_value =
      elim (parse_cron_field_part (trim segment)) [
        | err e ↦ false
        | ok part ↦
            value_in_step_range value part.start part.end part.step
            || (not (alias_value == 0)
                && value_in_step_range alias_value part.start part.end part.step)
            || matches_segments segments value alias_value
      ]

  unfoldable pub matches_field : Text → ℕ → ℕ → Bool
  unfolding matches_segments value_in_step_range parse_cron_field_part trim split_on
  matches_field field value alias_value = matches_segments (split_on b',' field) value alias_value

  field_check : String → Text → ℕ → ℕ → Result (Unit {0})
  field_check label value lo hi = elim (parse_cron_field value lo hi) [
    | ok _ ↦ ok tt
    | err e ↦ err (field_invalid label e)
  ]

abbrev five : List Text → Result ParsedCronExpression
five (m ∷ h ∷ d ∷ mo ∷ w ∷ []) =
    ok (record { minute = m; hour = h; day_of_month = d; month = mo; day_of_week = w })
five _ = err five_fields

unfoldable pub parse_cron_expression : Text → Result ParsedCronExpression
unfolding split_spaces trim
parse_cron_expression expression = five (split_spaces (trim expression))

unfoldable pub validate_cron_expression : (Text → Option ℕ) → Text → Result (Unit {0})
unfolding parse_cron_expression field_check
validate_cron_expression number expression = do
  fields ← parse_cron_expression expression
  _ ← field_check number "minute" fields.minute 0 59
  _ ← field_check number "hour" fields.hour 0 23
  _ ← field_check number "day-of-month" fields.day_of_month 1 31
  _ ← field_check number "month" fields.month 1 12
  field_check number "day-of-week" fields.day_of_week 0 7
