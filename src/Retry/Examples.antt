-- ===== src/Retry/Examples.antt =====
-- The theorems on the retry policy at concrete attempts.
use klayengo.Prelude.{◌≡◌, refl, ◌↔◌, ◌⊎◌, true, String, Option, none, some, [], ◌∷◌, arith}
use klayengo.Prelude.Int.{ℤ, pos, ◌≤ℤ◌, ◌<ℤ◌}
use klayengo.Prelude.Int64.{mul64}
use klayengo.Http.{Response}
use klayengo.Text.{atoi, trim_space}
use klayengo.Backoff.Examples.{whole, settings}
use klayengo.Retry.{
  hour, default_is_idempotent, parse_retry_after, DefaultRetryPolicy, should_retry, allows_method,
}
use klayengo.Retry.Policy.{retries, delay_of, should_retry_iff, should_retry-le}

-- No date is understood.
abbrev no_dates : String → Option ℤ
no_dates s = none

abbrev policy : DefaultRetryPolicy whole
policy = record { max_retries = pos 3; settings = settings; is_idempotent = default_is_idempotent }

abbrev busy : Response
busy = record {
  status_code = pos 503;
  header = ("Retry-After", " 7 ") ∷ [];
  body = none;
  request_method = some "GET";
}

asks_for_seven : parse_retry_after no_dates " 7 " (pos 0) ≡ pos 7_000_000_000
unfolding parse_retry_after atoi trim_space mul64
asks_for_seven = refl

should_retry_iff_example :
    let answer = should_retry whole no_dates policy (some busy) none (pos 0) (pos 0) (pos 0) in
    ((retries answer ≡ true) ↔ (
      (pos 0 <ℤ pos 3)
      × (allows_method default_is_idempotent (some busy) ≡ some true)
      × (true ≡ true)))
    × ((answer ≡ none)
        ↔ ((pos 0 <ℤ pos 3) × (allows_method default_is_idempotent (some busy) ≡ none)))
should_retry_iff_example =
    should_retry_iff whole no_dates policy (some busy) none (pos 0) (pos 0) (pos 0)

should_retry-le_example :
    (delay_of (should_retry whole no_dates policy (some busy) none (pos 0) (pos 0) (pos 0)) ≤ℤ hour)
    ⊎ (delay_of (should_retry whole no_dates policy (some busy) none (pos 0) (pos 0) (pos 0))
        ≤ℤ pos 1000)
should_retry-le_example =
    should_retry-le whole no_dates policy (some busy) none (pos 0) (pos 0) (pos 0) refl
      (omega arith)
