-- ===== src/Validation.antt =====
-- `ValidateConfiguration` of options.go: the messages of a client's settings. The comparison of
-- floats and the printing of integers are parameters; a function or a pointer of which only the
-- presence is read is a Boolean, false for nil.
pub mod Sound
pub mod Examples
use Prim.Native.String.{◌++◌ as ◌+++◌}
use klayengo.Prelude.{
  Bool, true, false, not, ◌&&◌, ◌||◌, String, Option, none, some, List, [], ◌∷◌, ◌++◌,
}
use klayengo.Prelude.Int.{ℤ, pos, leb_ℤ, ltb_ℤ, ◌+ℤ◌}
use klayengo.Breaker.{CircuitBreaker}
use klayengo.Limiter.{RateLimiter}
use klayengo.Budget.{RetryBudget}
use klayengo.Backoff.{
  Float, Settings, BackoffStrategy, exponential_jitter, decorrelated_jitter, other_strategy,
}

-- The fields of `Client` that are validated. `debug` is whether it is enabled, and whether it has a
-- generator of request ids.
pub record ClientSettings (f : Float) : Type 0 where
  pub max_retries : ℤ
  pub settings : Settings f
  pub timeout : ℤ
  pub retry_budget : Option RetryBudget
  pub rate_limiter : Option RateLimiter
  pub has_limiter_registry : Bool
  pub has_limiter_key_func : Bool
  pub has_cache : Bool
  pub cache_ttl : ℤ
  pub circuit_breaker : Option CircuitBreaker
  pub debug : Option (Bool × Bool)
  pub has_logger : Bool
  pub has_deduplication : Bool
  pub has_dedup_key_func : Bool
  pub has_dedup_condition : Bool
  pub middleware : List Bool
  pub has_http_client : Bool

-- `if test { errors = append(errors, message) }`.
pub report_if : Bool → String → List String
report_if true message = message ∷ []
report_if false message = []

module _ (f : Float) (le : f.float64 → f.float64 → Bool) (print_int : ℤ → String) where
  abbrev zero_float : f.float64
  zero_float = f.of_int (pos 0)

  pub validate_retry_config : ClientSettings f → List String
  unfolding report_if
  validate_retry_config c =
      report_if (ltb_ℤ c.max_retries (pos 0)) "maxRetries must be non-negative"
      ++ report_if (leb_ℤ c.settings.initial_backoff (pos 0)) "initialBackoff must be positive"
      ++ report_if (ltb_ℤ c.settings.max_backoff c.settings.initial_backoff)
          "maxBackoff must be greater than or equal to initialBackoff"
      ++ report_if (le c.settings.multiplier zero_float) "backoffMultiplier must be positive"
      ++ report_if (f.lt c.settings.jitter zero_float || f.lt (f.of_int (pos 1)) c.settings.jitter)
          "jitter must be between 0 and 1 (will be clamped automatically)"
      ++ report_if (leb_ℤ c.timeout (pos 0)) "timeout must be positive"

  pub validate_retry_budget_config : Option RetryBudget → List String
  unfolding report_if
  validate_retry_budget_config none = []
  validate_retry_budget_config (some b) =
      report_if (leb_ℤ b.max_retries (pos 0)) "retryBudget maxRetries must be positive"
      ++ report_if (leb_ℤ b.per_window (pos 0)) "retryBudget perWindow must be positive"
      ++ report_if (ltb_ℤ (pos 1000) b.max_retries)
          "retryBudget maxRetries > 1000 may cause excessive resource usage"
      ++ report_if (ltb_ℤ b.per_window (pos 1_000_000_000))
          "retryBudget perWindow < 1s may cause excessive retry limiting"

  pub validate_backoff_strategy_config : BackoffStrategy → List String
  validate_backoff_strategy_config exponential_jitter = []
  validate_backoff_strategy_config decorrelated_jitter = []
  validate_backoff_strategy_config (other_strategy n) =
      ("invalid backoffStrategy: " +++ print_int n) ∷ []

  limiter_messages : Option RateLimiter → List String
  unfolding report_if
  limiter_messages none = []
  limiter_messages (some l) =
      report_if (leb_ℤ l.max_tokens (pos 0)) "rateLimiter maxTokens must be positive"
      ++ report_if (leb_ℤ l.refill_rate (pos 0)) "rateLimiter refillRate must be positive"

  pub validate_rate_limiter_config : ClientSettings f → List String
  unfolding limiter_messages
  validate_rate_limiter_config c =
      limiter_messages c.rate_limiter
      ++ report_if (c.has_limiter_registry && not c.has_limiter_key_func)
          "limiterKeyFunc must be set when limiterRegistry is enabled"

  pub validate_cache_config : ClientSettings f → List String
  unfolding report_if
  validate_cache_config c =
      report_if (c.has_cache && leb_ℤ c.cache_ttl (pos 0))
        "cacheTTL must be positive when cache is enabled"

  pub validate_circuit_breaker_config : Option CircuitBreaker → List String
  unfolding report_if
  validate_circuit_breaker_config none = []
  validate_circuit_breaker_config (some b) =
      report_if (leb_ℤ b.config.failure_threshold (pos 0))
        "circuitBreaker FailureThreshold must be positive"
      ++ report_if (leb_ℤ b.config.recovery_timeout (pos 0))
          "circuitBreaker RecoveryTimeout must be positive"
      ++ report_if (leb_ℤ b.config.success_threshold (pos 0))
          "circuitBreaker SuccessThreshold must be positive"

  pub validate_debug_config : Option (Bool × Bool) → Bool → List String
  unfolding report_if
  validate_debug_config none has_logger = []
  validate_debug_config (some (enabled, has_generator)) has_logger =
      report_if (enabled && not has_generator)
        "debug RequestIDGen must be set when debug is enabled"
      ++ report_if (enabled && not has_logger) "logger must be set when debug is enabled"

  pub validate_deduplication_config : ClientSettings f → List String
  unfolding report_if
  validate_deduplication_config c =
      report_if (c.has_deduplication && not c.has_dedup_key_func)
        "deduplication key function must be set when deduplication is enabled"
      ++ report_if (c.has_deduplication && not c.has_dedup_condition)
          "deduplication condition must be set when deduplication is enabled"

  -- The loop over the middleware, from the index `i`.
  pub validate_middleware_config : ℤ → List Bool → List String
  unfolding report_if
  validate_middleware_config i [] = []
  validate_middleware_config i (present ∷ rest) =
      report_if (not present) ("middleware[" +++ print_int i +++ "] cannot be nil")
      ++ validate_middleware_config (i +ℤ pos 1) rest

  extreme_limiter : Option RateLimiter → List String
  unfolding report_if
  extreme_limiter none = []
  extreme_limiter (some l) =
      report_if (ltb_ℤ (pos 1000000) l.max_tokens)
        "rateLimiter maxTokens > 1M may cause memory issues"
      ++ report_if (ltb_ℤ l.refill_rate (pos 1000000))
          "rateLimiter refillRate < 1ms may cause excessive CPU usage"

  pub validate_extreme_values : ClientSettings f → List String
  unfolding report_if extreme_limiter
  validate_extreme_values c =
      report_if (ltb_ℤ (pos 100) c.max_retries)
        "maxRetries > 100 may cause excessive resource usage"
      ++ report_if (ltb_ℤ (pos 600_000_000_000) c.settings.initial_backoff)
          "initialBackoff > 10m may cause very long delays"
      ++ report_if (ltb_ℤ (pos 3_600_000_000_000) c.settings.max_backoff)
          "maxBackoff > 1h may cause extremely long delays"
      ++ report_if (ltb_ℤ (pos 600_000_000_000) c.timeout)
          "timeout > 10m may cause requests to hang for too long"
      ++ extreme_limiter c.rate_limiter
      ++ report_if (c.has_cache && ltb_ℤ (pos 86_400_000_000_000) c.cache_ttl)
          "cacheTTL > 24h may cause stale data issues"

  -- The messages of the error that is returned; no message is no error.
  unfoldable pub validate_configuration : ClientSettings f → List String
  unfolding validate_retry_config validate_retry_budget_config validate_backoff_strategy_config
      validate_rate_limiter_config validate_cache_config validate_circuit_breaker_config
      validate_debug_config validate_deduplication_config validate_middleware_config
      validate_extreme_values
  validate_configuration c =
      validate_retry_config c
      ++ validate_retry_budget_config c.retry_budget
      ++ validate_backoff_strategy_config c.settings.strategy
      ++ validate_rate_limiter_config c
      ++ validate_cache_config c
      ++ validate_circuit_breaker_config c.circuit_breaker
      ++ validate_debug_config c.debug c.has_logger
      ++ validate_deduplication_config c
      ++ validate_middleware_config (pos 0) c.middleware
      ++ report_if (not c.has_http_client) "HTTP client cannot be nil"
      ++ validate_extreme_values c
