-- ===== src/Harness/RetryPolicy/Classify.antt =====
-- `classifyError` and what it reads of an error.
use reins_core.Prelude.{
  ℕ, ◌-◌, Bool, true, false, ◌&&◌, ◌||◌, Option, none, some, List, [], ◌∷◌, map, any, leb, ltb,
  ◌==◌, if◌then◌else◌, or_else,
}
use reins_core.Prelude.Text.{Text, units, trim, text_eq, starts_with, to_lower_unit}

-- The two kinds of headers: what `Headers.get` gives, or the own keys in order, with the values that
-- are texts.
pub data Headers : Type 0 where
  instance_with : (value : Option Text) → Headers
  object_with : List (Text × Option Text) → Headers

-- A thrown value, as far as it is read: the numbers among its properties, the two places of headers,
-- and the message where it is an `Error`.
pub record Thrown : Type 0 where
  pub status : Option ℕ
  pub status_code : Option ℕ
  pub headers : Option Headers
  pub response_headers : Option Headers
  pub message : Option Text

-- `ceil_ms t` is `Math.ceil(Number(t) * 1000)` where `Number(t)` is finite and not negative; `date_parse`
-- is `Date.parse`, with 0 for a date before the epoch.
pub record Readers : Type 0 where
  pub ceil_ms : Text → Option ℕ
  pub date_parse : Text → Option ℕ

pub data Reason : Type 0 where
  status_not_retryable status_retryable : (status : ℕ) → Reason
  transient_error : (pattern : Text) → Reason
  unknown_error : Reason

pub record RetryClassification : Type 0 where
  pub retryable : Bool
  pub retry_after_ms : Option ℕ
  pub reason : Reason

abbrev retryable_status_codes : List ℕ
retryable_status_codes = 429 ∷ 500 ∷ 502 ∷ 503 ∷ 504 ∷ []

abbrev non_retryable_status_codes : List ℕ
non_retryable_status_codes = 400 ∷ 401 ∷ 403 ∷ 404 ∷ 405 ∷ 409 ∷ 422 ∷ []

abbrev transient_error_patterns : List Text
transient_error_patterns =
    units "econnrefused"
    ∷ units "econnreset"
    ∷ units "etimedout"
    ∷ units "enetunreach"
    ∷ units "ehostunreach"
    ∷ units "enotfound"
    ∷ units "socket hang up"
    ∷ units "network"
    ∷ units "timeout"
    ∷ units "connection refused"
    ∷ units "dns"
    ∷ units "fetch failed"
    ∷ []

-- `codes.has(status)`
abbrev has_code : List ℕ → ℕ → Bool
has_code codes status = any (λ c. c == status) codes

-- `text.includes(part)`
includes_text : Text → Text → Bool
includes_text [] part = starts_with [] part
includes_text (c ∷ cs) part = starts_with (c ∷ cs) part || includes_text cs part

-- `parseRetryAfter`
parse_trimmed : Readers → (now : ℕ) → Text → Option ℕ
parse_trimmed r now [] = none
parse_trimmed r now (c ∷ cs) = elim (r.ceil_ms (c ∷ cs)) [
  | some delay ↦ some delay
  | none ↦ elim (r.date_parse (c ∷ cs)) [ some date ↦ some (date - now) | none ↦ none ]
]

unfoldable pub parse_retry_after : Readers → Option Text → (now : ℕ) → Option ℕ
unfolding parse_trimmed
parse_retry_after r none now = none
parse_retry_after r (some value) now = parse_trimmed r now (trim value)

abbrev first_status : Option ℕ → Option ℕ → Option ℕ
first_status none rest = rest
first_status (some n) rest = if leb 100 n && ltb n 600 then some n else rest

unfoldable pub extract_status_code : Thrown → Option ℕ
extract_status_code error = first_status error.status (first_status error.status_code none)

own_value : List (Text × Option Text) → Text → Option Text
own_value [] name = none
own_value ((key, val) ∷ entries) name =
    if text_eq (map to_lower_unit key) name then val else own_value entries name

abbrev get_header_value : Headers → Text → Option Text
get_header_value (instance_with value) name = value
get_header_value (object_with entries) name = own_value entries name

abbrev header_of : Option Headers → Option Text
header_of none = none
header_of (some headers) = get_header_value headers (units "retry-after")

abbrev first_text : Option Text → Option Text → Option Text
first_text (some t) rest = some t
first_text none rest = rest

unfoldable pub extract_retry_after_header : Thrown → Option Text
unfolding own_value
extract_retry_after_header error =
    first_text (header_of error.headers) (header_of error.response_headers)

abbrev retry : Option ℕ → Reason → RetryClassification
retry retry_after_ms reason = record {
  retryable = true;
  retry_after_ms = retry_after_ms;
  reason = reason;
}

abbrev refuse : Reason → RetryClassification
refuse reason = record { retryable = false; retry_after_ms = none; reason = reason }

-- The loop over the patterns.
classify_message : List Text → Text → Option ℕ → RetryClassification
classify_message [] message retry_after_ms = refuse unknown_error
classify_message (pattern ∷ patterns) message retry_after_ms =
    if includes_text message pattern
    then retry retry_after_ms (transient_error pattern)
    else classify_message patterns message retry_after_ms

abbrev classify_status : Option ℕ → Option ℕ → RetryClassification → RetryClassification
classify_status none retry_after_ms by_message = by_message
classify_status (some status) retry_after_ms by_message =
    if has_code non_retryable_status_codes status
    then refuse (status_not_retryable status)
    else if has_code retryable_status_codes status
    then retry retry_after_ms (status_retryable status)
    else by_message

unfoldable pub classify_error : Readers → Thrown → (now : ℕ) → RetryClassification
unfolding classify_message includes_text parse_retry_after extract_status_code
    extract_retry_after_header
classify_error r error now =
    let retry_after_ms = parse_retry_after r (extract_retry_after_header error) now in
    let message = map to_lower_unit (or_else error.message []) in
    classify_status (extract_status_code error) retry_after_ms
      (classify_message transient_error_patterns message retry_after_ms)
