-- ===== src/Errors.antt =====
-- The errors of errors.go, and the parts of the package `errors` that walk a chain of causes.
pub mod Transient
pub mod Printing
mod Examples
use text.Mathlib.Text.{◌==◌}
use klayengo.Prelude.{
  ℕ, Bool, true, false, ◌&&◌, ◌||◌, if◌then◌else◌, String, Option, none, some, ◌==◌ as nat_eq,
}
use klayengo.Prelude.Int.{ℤ, pos, eqb_ℤ}

abbrev pub error_type_network : String
error_type_network = "NetworkError"

abbrev pub error_type_timeout : String
error_type_timeout = "TimeoutError"

abbrev pub error_type_rate_limit : String
error_type_rate_limit = "RateLimitError"

abbrev pub error_type_circuit_open : String
error_type_circuit_open = "CircuitBreakerError"

abbrev pub error_type_server : String
error_type_server = "ServerError"

abbrev pub error_type_client : String
error_type_client = "ClientError"

abbrev pub error_type_validation : String
error_type_validation = "ValidationError"

abbrev pub error_type_retry_budget_exceeded : String
error_type_retry_budget_exceeded = "RetryBudgetExceededError"

-- The fields of a `ClientError` but its cause.
pub record ErrorInfo : Type 0 where
  pub type_name : String
  pub message : String
  pub request_id : String
  pub method : String
  pub url : String
  pub attempt : ℤ
  pub max_retries : ℤ
  pub timestamp : ℤ
  pub duration : ℤ
  pub status_code : ℤ
  pub endpoint : String

pub data Sentinel : Type 0 where
  circuit_open rate_limited cache_miss retry_budget_exceeded : Sentinel

pub Sentinel-discrete : Discrete Sentinel
Sentinel-discrete = hlevel

abbrev pub same_sentinel : Sentinel → Sentinel → Bool
same_sentinel circuit_open circuit_open = true
same_sentinel rate_limited rate_limited = true
same_sentinel cache_miss cache_miss = true
same_sentinel retry_budget_exceeded retry_budget_exceeded = true
same_sentinel _ _ = false

-- A non-nil `error`: a sentinel, a `ClientError` with a cause or with none, the text and the cause
-- of `fmt.Errorf("…: %w", cause)`, or an error of other code, which wraps nothing.
pub data Error : Type 0 where
  sentinel : Sentinel → Error
  client_error : ErrorInfo → Error → Error
  bare_client_error : ErrorInfo → Error
  wrapped : String → Error → Error
  foreign : ℕ → Error

-- `errors.Is(err, target)` for a sentinel: `ClientError.Is` answers false for such a target.
unfoldable pub is_sentinel : Sentinel → Error → Bool
is_sentinel s (sentinel t) = same_sentinel t s
is_sentinel s (client_error e cause) = is_sentinel s cause
is_sentinel s (bare_client_error e) = false
is_sentinel s (wrapped m cause) = is_sentinel s cause
is_sentinel s (foreign n) = false

-- `errors.As(err, &clientErr)`: the first `ClientError` of the chain.
unfoldable pub as_client_error : Error → Option ErrorInfo
as_client_error (sentinel t) = none
as_client_error (client_error e cause) = some e
as_client_error (bare_client_error e) = some e
as_client_error (wrapped m cause) = as_client_error cause
as_client_error (foreign n) = none

-- `errors.Is(err, target)` for a `ClientError` as target, through `ClientError.Is`.
unfoldable pub is_client_error : ErrorInfo → Error → Bool
is_client_error t (sentinel s) = false
is_client_error t (client_error e cause) = e.type_name == t.type_name || is_client_error t cause
is_client_error t (bare_client_error e) = e.type_name == t.type_name
is_client_error t (wrapped m cause) = is_client_error t cause
is_client_error t (foreign n) = false

-- `Unwrap`.
unfoldable pub unwrap : Error → Option Error
unwrap (client_error e cause) = some cause
unwrap (wrapped m cause) = some cause
unwrap _ = none

-- The `switch` of `IsTransient`.
transient_type : ErrorInfo → Bool
transient_type e =
    if e.type_name == error_type_network
      || (e.type_name == error_type_timeout
          || (e.type_name == error_type_server
              || (e.type_name == error_type_rate_limit || e.type_name == error_type_circuit_open)))
    then true
    else if e.type_name == error_type_client
    then eqb_ℤ e.status_code (pos 429)
    else false

transient_info : Option ErrorInfo → Bool
unfolding transient_type
transient_info none = false
transient_info (some e) = transient_type e

unfoldable pub is_transient : Option Error → Bool
unfolding is_sentinel as_client_error transient_info
is_transient none = false
is_transient (some e) =
    if is_sentinel circuit_open e
      || (is_sentinel rate_limited e || is_sentinel retry_budget_exceeded e)
    then true
    else transient_info (as_client_error e)
