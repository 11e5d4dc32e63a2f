-- ===== src/Retry.antt =====
-- The default retry policy and the legacy retry condition: retry_policy.go, and
-- `DefaultRetryCondition` of client.go. `http.ParseTime` is a parameter.
pub mod Delay
pub mod Policy
mod Examples
use text.Mathlib.Text.{◌==◌}
use klayengo.Prelude.{
  ℕ, Bool, true, false, ◌&&◌, ◌||◌, not, if◌then◌else◌, String, Option, none, some, List, [], ◌∷◌,
}
use klayengo.Prelude.Int.{ℤ, pos, ltb_ℤ, leb_ℤ, eqb_ℤ}
use klayengo.Prelude.Int64.{mul64, saturating_sub64}
use klayengo.Text.{codes, trim_space, atoi}
use klayengo.Http.{Response, header_get}
use klayengo.Errors.{Error}
use klayengo.Backoff.{
  BackoffStrategy, exponential_jitter, calculator_for, Float, Settings, calculate_backoff,
}

-- `time.Second` and `time.Hour` in nanoseconds.
abbrev pub second : ℤ
second = pos 1_000_000_000

abbrev pub hour : ℤ
hour = pos 3_600_000_000_000

unfoldable pub default_is_idempotent : String → Bool
default_is_idempotent m =
    m == "GET" || (m == "HEAD" || (m == "PUT" || (m == "DELETE" || m == "OPTIONS")))

-- The seconds of a `Retry-After`, as a delay; the product wraps around.
unfoldable pub seconds_delay : ℤ → ℤ
seconds_delay seconds = let delay = mul64 seconds second in if ltb_ℤ hour delay then hour else delay

-- The HTTP-date of a `Retry-After`, as a delay from `now` (`time.Until`).
date_delay : Option ℤ → ℤ → ℤ
date_delay none now = pos 0
date_delay (some t) now =
    let delay = saturating_sub64 t now in
    if ltb_ℤ (pos 0) delay && leb_ℤ delay hour then delay else pos 0

retry_after_value : Option ℤ → Option ℤ → ℤ → ℤ
unfolding seconds_delay date_delay
retry_after_value none date now = date_delay date now
retry_after_value (some seconds) date now =
    if ltb_ℤ (pos 0) seconds then seconds_delay seconds else date_delay date now

module _ (parse_time : String → Option ℤ) where
  unfoldable pub parse_retry_after : String → ℤ → ℤ
  unfolding retry_after_value
  parse_retry_after value now =
      if value == ""
      then pos 0
      else retry_after_value (atoi (trim_space (codes value))) (parse_time value) now

pub record DefaultRetryPolicy (f : Float) : Type 0 where
  pub max_retries : ℤ
  pub settings : Settings f
  pub is_idempotent : String → Bool

module _ (f : Float) where
  unfoldable pub new_default_retry_policy_with_strategy :
      ℤ → ℤ → ℤ → f.float64 → f.float64 → BackoffStrategy → DefaultRetryPolicy f
  new_default_retry_policy_with_strategy max_retries initial max multiplier jitter strategy =
      record {
        max_retries = max_retries;
        settings = record {
          initial_backoff = initial;
          max_backoff = max;
          multiplier = multiplier;
          jitter = jitter;
          strategy = strategy;
          calculator = some (calculator_for strategy);
        };
        is_idempotent = default_is_idempotent;
      }

  unfoldable pub new_default_retry_policy : ℤ → ℤ → ℤ → f.float64 → f.float64 → DefaultRetryPolicy f
  unfolding new_default_retry_policy_with_strategy
  new_default_retry_policy max_retries initial max multiplier jitter =
      new_default_retry_policy_with_strategy max_retries initial max multiplier jitter
        exponential_jitter

-- `resp.StatusCode == 429 || resp.StatusCode >= 500`.
abbrev pub retryable_status : ℤ → Bool
retryable_status code = eqb_ℤ code (pos 429) || leb_ℤ (pos 500) code

-- Whether the method of the response's request, if there is a response, is idempotent; `none` is the fault
-- of a response without its request.
abbrev pub allows_method : (String → Bool) → Option Response → Option Bool
allows_method is_idempotent none = some true
allows_method is_idempotent (some resp) = elim resp.request_method [
  | none ↦ none
  | some m ↦ some (is_idempotent m)
]

module _ (f : Float) (parse_time : String → Option ℤ) where
  -- Whether to retry, and the delay that the server asks for.
  wish : Option Response → Option Error → ℤ → ℤ × Bool
  unfolding parse_retry_after
  wish resp (some err) now = (pos 0, true)
  wish none none now = (pos 0, false)
  wish (some resp) none now =
      if retryable_status resp.status_code
      then (parse_retry_after parse_time (header_get "Retry-After" resp.header) now, true)
      else (pos 0, false)

  answer_for :
      DefaultRetryPolicy f
      → Option Bool
      → Option Response
      → Option Error
      → ℤ
      → ℤ
      → f.float64
      → Option (ℤ × Bool)
  unfolding wish
  answer_for p none resp err attempt now r = none
  answer_for p (some false) resp err attempt now r = some (pos 0, false)
  answer_for p (some true) resp err attempt now r =
      let (delay, wanted) = wish resp err now in
      if not wanted
      then some (pos 0, false)
      else if eqb_ℤ delay (pos 0)
      then some (calculate_backoff f p.settings attempt r, true)
      else some (delay, true)

  -- `ShouldRetry`, at the clock's reading `now` and the random number `r`.
  unfoldable pub should_retry :
      DefaultRetryPolicy f → Option Response → Option Error → ℤ → ℤ → f.float64 → Option (ℤ × Bool)
  unfolding answer_for
  should_retry p resp err attempt now r =
      if leb_ℤ p.max_retries attempt
      then some (pos 0, false)
      else answer_for p (allows_method p.is_idempotent resp) resp err attempt now r

-- `DefaultRetryCondition`; `none` for the fault of reading a nil response.
unfoldable pub default_retry_condition : Option Response → Option Error → Option Bool
default_retry_condition resp (some err) = some true
default_retry_condition none none = none
default_retry_condition (some resp) none = some (leb_ℤ (pos 500) resp.status_code)
