-- ===== src/Cron/NextRun/Weekday.antt =====
-- The day of the week in `isJobDue`, and the alias 7 of Sunday.
use reins_core.Prelude.{ℕ, ◌≡◌, ◌↔◌, inl, inr, Bool, true, Option, List, [], ◌∷◌, arith, Any}
use reins_core.Prelude.Text.{Text, split_on}
use reins_core.Cron.Job.{Job, active}
use reins_core.Cron.Expression.{
  ok, ParsedCronExpression, parse_cron_expression, parse_cron_field, matches_field,
}
use reins_core.Cron.Expression.Matching.{Covers, CoversEither, matches_field_iff}
use reins_core.Cron.NextRun.{PartKind, TimeParts, get_time_parts, is_job_due}

module _ (number : Text → Option ℕ) (format_to_parts : Text → ℕ → Option (List (PartKind × Text)))
    (valid_timezone : Text → Bool) where
  Any-either :
      (value : ℕ) (segments : List Text)
      → Any (λ s. Covers number s 7) segments
      → Any (CoversEither number value 7) segments
  Any-either value [] a = elim a [ ]
  Any-either value (s ∷ segments) (inl c) = inl (inr (λ e. absurd (omega arith), c))
  Any-either value (s ∷ segments) (inr a) = inr (Any-either value segments a)

  Covers-seven-matches :
      (field : Text) (value : ℕ)
      → parse_cron_field number field 0 7 ≡ ok tt
      → Any (λ s. Covers number s 7) (split_on b',' field)
      → matches_field number field value 7 ≡ true
  Covers-seven-matches field value valid covers =
      (matches_field_iff number field 0 7 value 7 valid).1
        (Any-either value (split_on b',' field) covers)

  -- Where a segment of the day-of-week field covers 7, the day of the week plays no part: an active
  -- job is due exactly if the other four fields match.
  pub is_job_due-seven :
      (job : Job) (now : ℕ) (fields : ParsedCronExpression) (parts : TimeParts)
      → job.status ≡ active
      → parse_cron_expression job.schedule ≡ ok fields
      → get_time_parts number format_to_parts valid_timezone now job.timezone ≡ ok parts
      → parse_cron_field number fields.day_of_week 0 7 ≡ ok tt
      → Any (λ s. Covers number s 7) (split_on b',' fields.day_of_week)
      → (is_job_due number format_to_parts valid_timezone job now ≡ true) ↔ (
          (matches_field number fields.minute parts.minute 0 ≡ true)
          × (matches_field number fields.hour parts.hour 0 ≡ true)
          × (matches_field number fields.day_of_month parts.day_of_month 0 ≡ true)
          × (matches_field number fields.month parts.month 0 ≡ true))
  unfolding is_job_due
  is_job_due-seven job now fields parts act schedule time valid covers =
      let seven = Covers-seven-matches fields.day_of_week parts.day_of_week valid covers in
      ground arith
