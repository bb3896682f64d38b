-- ===== src/Cron/Expression/Tests.antt =====
-- Cron expressions parsed and matched, and the theorems at inputs that meet their hypotheses.
use reins_core.Prelude.{◌≡◌, refl, ◌↔◌, true, false, Any, All}
use reins_core.Prelude.Text.{units, split_on}
use reins_core.Cron.Samples.{decimal}
use reins_core.Cron.Expression.{
  ok, err, five_fields, field_invalid, out_of_range, step_not_positive, parse_cron_field_part,
  parse_cron_field, matches_field, validate_cron_expression,
}
use reins_core.Cron.Expression.Matching.{
  CoversEither, CoversWithin, matches_field_iff, parse_cron_field-within,
}

parsing :
    (parse_cron_field_part decimal (units "1-5/2")
      ≡ ok (record { start = 1; end = 5; step = 2; wildcard = false }))
    × (parse_cron_field_part decimal (units "*/0") ≡ err step_not_positive)
    × (parse_cron_field_part decimal (units "1-2-3")
        ≡ ok (record { start = 1; end = 2; step = 1; wildcard = false }))
unfolding parse_cron_field_part decimal
parsing = (refl, refl, refl)

validation :
    (validate_cron_expression decimal (units " */15 9-17  * * 1-5 ") ≡ ok tt)
    × (validate_cron_expression decimal (units "* * * *") ≡ err five_fields)
    × (validate_cron_expression decimal (units "61 * * * *")
        ≡ err (field_invalid "minute" out_of_range))
unfolding validate_cron_expression decimal parse_cron_field
validation = (refl, refl, refl)

matching :
    (matches_field decimal (units "1-5,10") 10 0 ≡ true)
    × (matches_field decimal (units "1-5,10") 6 0 ≡ false)
    × (matches_field decimal (units "7") 3 7 ≡ true)
unfolding matches_field decimal
matching = (refl, refl, refl)

matches_field_iff_example :
    (matches_field decimal (units "0,10-20/5") 15 0 ≡ true)
    ↔ Any (CoversEither decimal 15 0) (split_on b',' (units "0,10-20/5"))
unfolding parse_cron_field decimal
matches_field_iff_example = matches_field_iff decimal (units "0,10-20/5") 0 59 15 0 refl

parse_cron_field-within_example :
    All (CoversWithin decimal 0 59 15) (split_on b',' (units "0,10-20/5"))
unfolding parse_cron_field decimal
parse_cron_field-within_example = parse_cron_field-within decimal (units "0,10-20/5") 0 59 15 refl
