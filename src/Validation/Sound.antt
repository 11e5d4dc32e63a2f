-- ===== src/Validation/Sound.antt =====
-- What a client's settings satisfy once they are validated.
use klayengo.Prelude.{
  ◌≡◌, refl, Bool, true, false, not, String, Option, none, some, List, [], ◌∷◌, ◌++◌, arith,
}
use klayengo.Prelude.Int.{ℤ, pos, ◌≤ℤ◌, ◌<ℤ◌, ltb_ℤ}
use klayengo.Breaker.{CircuitBreaker}
use klayengo.Limiter.{RateLimiter}
use klayengo.Budget.{RetryBudget}
use klayengo.Backoff.{Float}
use klayengo.Validation.{
  ClientSettings, report_if, validate_retry_config, validate_retry_budget_config, limiter_messages,
  validate_rate_limiter_config, validate_circuit_breaker_config, extreme_limiter,
  validate_extreme_values, validate_configuration, validate_backoff_strategy_config,
  validate_cache_config, validate_debug_config, validate_deduplication_config,
  validate_middleware_config,
}

both_empty : (xs ys : List String) → xs ++ ys ≡ [] → (xs ≡ []) × (ys ≡ [])
both_empty [] ys h = (refl, h)
both_empty (x ∷ xs) ys h = ground arith

not_reported : (test : Bool) (message : String) → report_if test message ≡ [] → test ≡ false
unfolding report_if
not_reported false message h = refl
not_reported true message h = ground arith

-- The last of several reports, and the messages before it.
last_empty :
    (before : List String) (test : Bool) (message : String)
    → before ++ report_if test message ≡ []
    → (before ≡ []) × (test ≡ false)
last_empty before test message h =
    let (there, here) = both_empty before (report_if test message) h in
    (there, not_reported test message here)

present : (b : Bool) → report_if (not b) "HTTP client cannot be nil" ≡ [] → b ≡ true
unfolding report_if
present true h = refl
present false h = ground arith

-- A bucket of one to a million tokens, at least a millisecond apart.
abbrev pub LimiterWithin : Option RateLimiter → Type 0
LimiterWithin none = pos 0 ≤ℤ pos 0
LimiterWithin (some l) =
    (pos 0 <ℤ l.max_tokens) × (l.max_tokens ≤ℤ pos 1000000) × (pos 1000000 ≤ℤ l.refill_rate)

-- A budget of one to a thousand retries in a window of at least a second.
abbrev pub BudgetWithin : Option RetryBudget → Type 0
BudgetWithin none = pos 0 ≤ℤ pos 0
BudgetWithin (some b) =
    (pos 0 <ℤ b.max_retries) × (b.max_retries ≤ℤ pos 1000) × (pos 1000000000 ≤ℤ b.per_window)

abbrev pub BreakerWithin : Option CircuitBreaker → Type 0
BreakerWithin none = pos 0 ≤ℤ pos 0
BreakerWithin (some b) =
    (pos 0 <ℤ b.config.failure_threshold)
    × (pos 0 <ℤ b.config.recovery_timeout)
    × (pos 0 <ℤ b.config.success_threshold)

-- The bounds of a client: at most 100 retries, backoffs from a positive one up to an hour, a
-- timeout of at most ten minutes, and the components' own.
pub record Within (f : Float) (c : ClientSettings f) : Type 0 where
  pub least_retries : pos 0 ≤ℤ c.max_retries
  pub most_retries : c.max_retries ≤ℤ pos 100
  pub some_backoff : pos 0 <ℤ c.settings.initial_backoff
  pub backoffs : c.settings.initial_backoff ≤ℤ c.settings.max_backoff
  pub most_backoff : c.settings.max_backoff ≤ℤ pos 3_600_000_000_000
  pub some_timeout : pos 0 <ℤ c.timeout
  pub most_timeout : c.timeout ≤ℤ pos 600_000_000_000
  pub limiter : LimiterWithin c.rate_limiter
  pub budget : BudgetWithin c.retry_budget
  pub breaker : BreakerWithin c.circuit_breaker
  pub http_client : c.has_http_client ≡ true

module _ (f : Float) (le : f.float64 → f.float64 → Bool) (print_int : ℤ → String) where
  budget-Within :
      (b : Option RetryBudget) → validate_retry_budget_config f le print_int b ≡ [] → BudgetWithin b
  unfolding validate_retry_budget_config report_if
  budget-Within none h = omega arith
  budget-Within (some b) h = ground (arith, h)

  breaker-Within :
      (b : Option CircuitBreaker)
      → validate_circuit_breaker_config f le print_int b ≡ []
      → BreakerWithin b
  unfolding validate_circuit_breaker_config report_if
  breaker-Within none h = omega arith
  breaker-Within (some b) h = ground (arith, h)

  limiter-Within :
      (l : Option RateLimiter)
      → limiter_messages f le print_int l ≡ []
      → extreme_limiter f le print_int l ≡ []
      → LimiterWithin l
  unfolding limiter_messages extreme_limiter report_if
  limiter-Within none h g = omega arith
  limiter-Within (some l) h g = ground (arith, h, g)

  retry_bounds :
      (c : ClientSettings f)
      → validate_retry_config f le print_int c ≡ []
      → (pos 0 ≤ℤ c.max_retries)
        × (pos 0 <ℤ c.settings.initial_backoff)
        × (c.settings.initial_backoff ≤ℤ c.settings.max_backoff)
        × (pos 0 <ℤ c.timeout)
  unfolding validate_retry_config report_if
  retry_bounds c h = ground (arith, h)

  extreme_bounds :
      (c : ClientSettings f)
      → validate_extreme_values f le print_int c ≡ []
      → (c.max_retries ≤ℤ pos 100)
        × (c.settings.max_backoff ≤ℤ pos 3_600_000_000_000)
        × (c.timeout ≤ℤ pos 600_000_000_000)
        × (extreme_limiter f le print_int c.rate_limiter ≡ [])
  unfolding validate_extreme_values
  extreme_bounds c h =
      let (h1, cache) = last_empty _ _ "cacheTTL > 24h may cause stale data issues" h in
      let (h2, limiter) = both_empty _ (extreme_limiter f le print_int c.rate_limiter) h1 in
      let (h3, timeout) =
        last_empty _ (ltb_ℤ (pos 600_000_000_000) c.timeout)
          "timeout > 10m may cause requests to hang for too long" h2 in
      let (h4, backoff) =
        last_empty _ (ltb_ℤ (pos 3_600_000_000_000) c.settings.max_backoff)
          "maxBackoff > 1h may cause extremely long delays" h3 in
      let (h5, initial) =
        last_empty _ (ltb_ℤ (pos 600_000_000_000) c.settings.initial_backoff)
          "initialBackoff > 10m may cause very long delays" h4 in
      let retries = not_reported (ltb_ℤ (pos 100) c.max_retries) _ h5 in
      (ground (arith, retries), ground (arith, backoff), ground (arith, timeout), limiter)

  -- Settings without a message of `ValidateConfiguration` are within the bounds: 0 to 100 retries, a
  -- positive initial backoff up to the maximal one, which is at most an hour, a positive timeout of
  -- at most ten minutes, a rate limiter (if any) of 1 to 1000000 tokens that are at least a
  -- millisecond apart, a retry budget (if any) of 1 to 1000 retries in a window of at least a
  -- second, a circuit breaker (if any) with positive thresholds and a positive timeout, and an
  -- http.Client.
  pub validate_configuration-Within :
      (c : ClientSettings f) → validate_configuration f le print_int c ≡ [] → Within f c
  unfolding validate_configuration validate_retry_config validate_rate_limiter_config
      validate_extreme_values
  validate_configuration-Within c h =
      let (h1, extreme) = both_empty _ (validate_extreme_values f le print_int c) h in
      let (h2, http) =
        both_empty _ (report_if (not c.has_http_client) "HTTP client cannot be nil") h1 in
      let (h3, middleware) =
        both_empty _ (validate_middleware_config f le print_int (pos 0) c.middleware) h2 in
      let (h4, dedup) = both_empty _ (validate_deduplication_config f le print_int c) h3 in
      let (h5, debug) =
        both_empty _ (validate_debug_config f le print_int c.debug c.has_logger) h4 in
      let (h6, breaker) =
        both_empty _ (validate_circuit_breaker_config f le print_int c.circuit_breaker) h5 in
      let (h7, cache) = both_empty _ (validate_cache_config f le print_int c) h6 in
      let (h8, limiter) = both_empty _ (validate_rate_limiter_config f le print_int c) h7 in
      let (h9, strategy) =
        both_empty _ (validate_backoff_strategy_config f le print_int c.settings.strategy) h8 in
      let (retry, budget) =
        both_empty (validate_retry_config f le print_int c)
          (validate_retry_budget_config f le print_int c.retry_budget) h9 in
      let (least, initial, ordered, timed) = retry_bounds c retry in
      let (most, hour, minutes, tokens) = extreme_bounds c extreme in
      let bucket = (both_empty (limiter_messages f le print_int c.rate_limiter) _ limiter).0 in
      record {
        least_retries = least;
        most_retries = most;
        some_backoff = initial;
        backoffs = ordered;
        most_backoff = hour;
        some_timeout = timed;
        most_timeout = minutes;
        limiter = limiter-Within c.rate_limiter bucket tokens;
        budget = budget-Within c.retry_budget budget;
        breaker = breaker-Within c.circuit_breaker breaker;
        http_client = present c.has_http_client http;
      }
