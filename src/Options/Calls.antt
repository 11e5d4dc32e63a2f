-- ===== src/Options/Calls.antt =====
-- Calls of the package's options, with their arguments.
use klayengo.Prelude.{ℕ, Bool, String, Option, List}
use klayengo.Prelude.Int.{ℤ}
use klayengo.Http.{Request}
use klayengo.Breaker.{CircuitBreakerConfig}
use klayengo.Registry.{LimiterRef}
use klayengo.Backoff.{Float, BackoffStrategy}
use klayengo.Provider.{CacheMode}
use klayengo.Options.{Kinds, ClientOption}
use klayengo.Options.With.{
  with_max_retries, with_initial_backoff, with_max_backoff, with_backoff_multiplier, with_jitter,
  with_backoff_strategy, with_rate_limiter, with_limiter_for, with_limiter_key_func, with_cache,
  with_custom_cache, with_cache_key_func, with_cache_condition, with_cache_provider,
  with_cache_mode, with_timeout, with_retry_condition, with_retry_policy, with_retry_budget,
  with_circuit_breaker, with_middleware, with_http_client, with_metrics, with_metrics_collector,
  with_debug, with_debug_config, with_logger, with_simple_logger, with_request_id_generator,
  with_deduplication, with_deduplication_key_func, with_deduplication_condition,
  with_single_flight_enabled,
}

module _ (f : Float) (k : Kinds) where
  pub data OptionCall : Type 0 where
    call_max_retries : ℤ → OptionCall
    call_initial_backoff : ℤ → OptionCall
    call_max_backoff : ℤ → OptionCall
    call_backoff_multiplier : f.float64 → OptionCall
    call_jitter : f.float64 → OptionCall
    call_backoff_strategy : BackoffStrategy → OptionCall
    call_rate_limiter : ℤ → ℤ → ℤ → OptionCall
    call_limiter_for : String → LimiterRef → OptionCall
    call_limiter_key_func : Option (Request → String) → OptionCall
    call_cache : ℤ → OptionCall
    call_custom_cache : Option k.Cache → ℤ → OptionCall
    call_cache_key_func : Option (Request → String) → OptionCall
    call_cache_condition : Option (Request → Bool) → OptionCall
    call_cache_provider : Option k.CacheProvider → OptionCall
    call_cache_mode : CacheMode → OptionCall
    call_timeout : ℤ → OptionCall
    call_retry_condition : Option k.RetryCondition → OptionCall
    call_retry_policy : Option k.RetryPolicy → OptionCall
    call_retry_budget : ℤ → ℤ → ℤ → OptionCall
    call_circuit_breaker : CircuitBreakerConfig → OptionCall
    call_middleware : List (Option k.Middleware) → OptionCall
    call_http_client : Option ℕ → OptionCall
    call_metrics : OptionCall
    call_metrics_collector : Option k.MetricsCollector → OptionCall
    call_debug : OptionCall
    call_debug_config : Option ℕ → OptionCall
    call_logger : Option k.Logger → OptionCall
    call_simple_logger : OptionCall
    call_request_id_generator : Option k.Generator → OptionCall
    call_deduplication : OptionCall
    call_deduplication_key_func : Option (Request → String) → OptionCall
    call_deduplication_condition : Option (Request → Bool) → OptionCall
    call_single_flight_enabled : Bool → OptionCall

  unfoldable pub option_of : OptionCall → ClientOption f k
  option_of (call_max_retries n) = with_max_retries f k n
  option_of (call_initial_backoff d) = with_initial_backoff f k d
  option_of (call_max_backoff d) = with_max_backoff f k d
  option_of (call_backoff_multiplier x) = with_backoff_multiplier f k x
  option_of (call_jitter x) = with_jitter f k x
  option_of (call_backoff_strategy s) = with_backoff_strategy f k s
  option_of (call_rate_limiter max_tokens refill_rate now) =
      with_rate_limiter f k max_tokens refill_rate now
  option_of (call_limiter_for key limiter) = with_limiter_for f k key limiter
  option_of (call_limiter_key_func key_func) = with_limiter_key_func f k key_func
  option_of (call_cache ttl) = with_cache f k ttl
  option_of (call_custom_cache cache ttl) = with_custom_cache f k cache ttl
  option_of (call_cache_key_func fn) = with_cache_key_func f k fn
  option_of (call_cache_condition fn) = with_cache_condition f k fn
  option_of (call_cache_provider provider) = with_cache_provider f k provider
  option_of (call_cache_mode mode) = with_cache_mode f k mode
  option_of (call_timeout d) = with_timeout f k d
  option_of (call_retry_condition fn) = with_retry_condition f k fn
  option_of (call_retry_policy policy) = with_retry_policy f k policy
  option_of (call_retry_budget max_retries per_window now) =
      with_retry_budget f k max_retries per_window now
  option_of (call_circuit_breaker config) = with_circuit_breaker f k config
  option_of (call_middleware ms) = with_middleware f k ms
  option_of (call_http_client client) = with_http_client f k client
  option_of call_metrics = with_metrics f k
  option_of (call_metrics_collector collector) = with_metrics_collector f k collector
  option_of call_debug = with_debug f k
  option_of (call_debug_config config) = with_debug_config f k config
  option_of (call_logger logger) = with_logger f k logger
  option_of call_simple_logger = with_simple_logger f k
  option_of (call_request_id_generator gen) = with_request_id_generator f k gen
  option_of call_deduplication = with_deduplication f k
  option_of (call_deduplication_key_func fn) = with_deduplication_key_func f k fn
  option_of (call_deduplication_condition fn) = with_deduplication_condition f k fn
  option_of (call_single_flight_enabled enabled) = with_single_flight_enabled f k enabled
