-- ===== src/Options/Examples.antt =====
-- The theorems on the options, at concrete ones.
use klayengo.Prelude.{ℕ, ◌≡◌, refl, String, Option, none, some, List, [], ◌∷◌, map}
use klayengo.Prelude.Int.{pos, leb_ℤ}
use klayengo.Http.{Request}
use klayengo.Limiter.{RateLimiter}
use klayengo.Registry.{limiter_at, typed_nil, or_fallback}
use klayengo.Backoff.Examples.{whole}
use klayengo.Breaker.{new_circuit_breaker, with_defaults}
use klayengo.Validation.{validate_configuration}
use klayengo.Validation.Examples.{print_none}
use klayengo.Options.{Kinds, Client, default_client, default_debug_config, apply_all, new_client}
use klayengo.Options.With.{
  with_limiter_for, with_limiter_key_func, with_timeout, with_http_client, with_max_retries,
}
use klayengo.Options.Calls.{OptionCall, call_max_retries, call_timeout, call_http_client, option_of}
use klayengo.Options.Timeouts.{HasTimeout, new_client-HasTimeout}
use klayengo.Options.Limiters.{decided, limiter_for-key_func}

abbrev pub kinds : Kinds
kinds = record {
  RetryCondition = ℕ;
  RetryPolicy = ℕ;
  Middleware = ℕ;
  Cache = ℕ;
  CacheProvider = ℕ;
  MetricsCollector = ℕ;
  Logger = ℕ;
  Generator = ℕ;
  default_retry_condition = 0;
  of_in_memory = λ c. 0;
  new_metrics_collector = 0;
  new_simple_logger = 0;
  generate_request_id = 0;
  default_deduplication_key_func = λ req. req.method;
}

abbrev empty_bucket : RateLimiter
empty_bucket = record {
  tokens = pos 0;
  max_tokens = pos 0;
  refill_rate = pos 0;
  last_refill = pos 0;
}

-- The pointers below 5 are the callers'.
abbrev pub start : Client whole kinds
start =
    default_client whole kinds (pos 0) (λ p. empty_bucket) (λ p. default_debug_config whole kinds)
      (λ p. pos 9) 5

-- The caller's http.Client 3, in between two timeouts.
abbrev calls : List (OptionCall whole kinds)
calls =
    call_timeout (pos 1_000_000_000)
    ∷ call_http_client (some 3)
    ∷ call_max_retries (pos 2)
    ∷ call_timeout (pos 2_000_000_000)
    ∷ []

abbrev made : Option (Client whole kinds × List String)
made =
    new_client whole kinds leb_ℤ print_none (pos 0) (λ p. empty_bucket)
      (λ p. default_debug_config whole kinds) (λ p. pos 9) 5 (map (option_of whole kinds) calls)

abbrev client : Client whole kinds
client = elim made [ none ↦ start | some (c, messages) ↦ c ]

made-client : made ≡ some (client, [])
unfolding new_client option_of with_timeout with_http_client with_max_retries validate_configuration
    new_circuit_breaker with_defaults
made-client = refl

new_client-HasTimeout_example : HasTimeout whole kinds client
new_client-HasTimeout_example =
    new_client-HasTimeout whole kinds leb_ℤ print_none (pos 0) (λ p. empty_bucket)
      (λ p. default_debug_config whole kinds) (λ p. pos 9) 5 calls client made-client

abbrev ask : Request
ask = record { method = "GET"; url = none; host = "a"; header = []; cache_control = none }

limiter_for-key_func_example :
    (decided whole kinds
        (apply_all whole kinds (some start) (
          with_limiter_for whole kinds "a" (limiter_at 2)
          ∷ with_limiter_key_func whole kinds (some (λ req. req.host))
          ∷ []))
        ask
      ≡ some (or_fallback none typed_nil "a"))
    × (decided whole kinds
          (apply_all whole kinds (some start) (
            with_limiter_key_func whole kinds (some (λ req. req.host))
            ∷ with_limiter_for whole kinds "a" (limiter_at 2)
            ∷ []))
          ask
        ≡ some (limiter_at 2, "a"))
limiter_for-key_func_example =
    limiter_for-key_func whole kinds start "a" (limiter_at 2) (λ req. req.host) ask
