-- ===== src/Options/With.antt =====
-- The options of options.go.
use klayengo.Prelude.{
  ℕ, suc, Bool, true, false, if◌then◌else◌, String, Option, none, some, List, ◌++◌,
}
use klayengo.Prelude.Int.{ℤ, pos, eqb_ℤ}
use klayengo.Http.{Request}
use klayengo.Breaker.{CircuitBreakerConfig, new_circuit_breaker}
use klayengo.Limiter.{new_rate_limiter}
use klayengo.Registry.{
  LimiterRef, typed_nil, limiter_at, RateLimiterRegistry, new_rate_limiter_registry,
  register_limiter,
}
use klayengo.Budget.{new_retry_budget}
use klayengo.Backoff.{Float, BackoffStrategy}
use klayengo.Cache.{new_in_memory_cache}
use klayengo.Provider.{CacheMode}
use klayengo.Dedup.{new_deduplication_tracker}
use klayengo.Options.{Kinds, DebugConfig, Client, ClientOption, write, default_debug_config}

module _ (f : Float) (k : Kinds) where
  unfoldable pub with_max_retries : ℤ → ClientOption f k
  with_max_retries n c = some (record c { max_retries = n })

  unfoldable pub with_initial_backoff : ℤ → ClientOption f k
  with_initial_backoff d c =
      some (record c { settings = record c.settings { initial_backoff = d } })

  unfoldable pub with_max_backoff : ℤ → ClientOption f k
  with_max_backoff d c = some (record c { settings = record c.settings { max_backoff = d } })

  unfoldable pub with_backoff_multiplier : f.float64 → ClientOption f k
  with_backoff_multiplier x c = some (record c { settings = record c.settings { multiplier = x } })

  at_least_zero : f.float64 → f.float64
  at_least_zero x = if f.lt x (f.of_int (pos 0)) then f.of_int (pos 0) else x

  at_most_one : f.float64 → f.float64
  at_most_one x = if f.lt (f.of_int (pos 1)) x then f.of_int (pos 1) else x

  unfoldable pub with_jitter : f.float64 → ClientOption f k
  unfolding at_least_zero at_most_one
  with_jitter x c =
      some (record c { settings = record c.settings { jitter = at_most_one (at_least_zero x) } })

  unfoldable pub with_backoff_strategy : BackoffStrategy → ClientOption f k
  with_backoff_strategy s c = some (record c { settings = record c.settings { strategy = s } })

  unfoldable pub with_rate_limiter : ℤ → ℤ → ℤ → ClientOption f k
  unfolding new_rate_limiter
  with_rate_limiter max_tokens refill_rate now c = some (record c {
    rate_limiter = some c.next;
    limiters = write c.limiters c.next (new_rate_limiter max_tokens refill_rate now);
    next = suc c.next;
  })

  -- A *RateLimiter as a `Limiter`: a nil pointer is no nil interface.
  abbrev pub limiter_of : Option ℕ → LimiterRef
  limiter_of none = typed_nil
  limiter_of (some p) = limiter_at p

  abbrev registry_of : Option RateLimiterRegistry → Client f k → RateLimiterRegistry
  registry_of none c = new_rate_limiter_registry c.limiter_key_func (limiter_of c.rate_limiter)
  registry_of (some r) c = r

  unfoldable pub with_limiter_for : String → LimiterRef → ClientOption f k
  unfolding new_rate_limiter_registry register_limiter
  with_limiter_for key limiter c = some (record c {
    limiter_registry = some (register_limiter (registry_of c.limiter_registry c) key limiter);
  })

  unfoldable pub with_limiter_key_func : Option (Request → String) → ClientOption f k
  unfolding new_rate_limiter_registry
  with_limiter_key_func key_func c = some (record c {
    limiter_key_func = key_func;
    limiter_registry = elim c.limiter_registry [
      | none ↦ none
      | some r ↦ some (new_rate_limiter_registry key_func (limiter_of c.rate_limiter))
    ];
  })

  unfoldable pub with_cache : ℤ → ClientOption f k
  unfolding new_in_memory_cache
  with_cache ttl c =
      some (record c { cache = some (k.of_in_memory new_in_memory_cache); cache_ttl = ttl })

  unfoldable pub with_custom_cache : Option k.Cache → ℤ → ClientOption f k
  with_custom_cache cache ttl c = some (record c { cache = cache; cache_ttl = ttl })

  unfoldable pub with_cache_key_func : Option (Request → String) → ClientOption f k
  with_cache_key_func fn c = some (record c { cache_key_func = fn })

  unfoldable pub with_cache_condition : Option (Request → Bool) → ClientOption f k
  with_cache_condition fn c = some (record c { cache_condition = fn })

  unfoldable pub with_cache_provider : Option k.CacheProvider → ClientOption f k
  with_cache_provider provider c = some (record c { cache_provider = provider })

  unfoldable pub with_cache_mode : CacheMode → ClientOption f k
  with_cache_mode mode c = some (record c { cache_mode = mode })

  -- The http.Client, if there is one, gets the timeout as well.
  unfoldable pub set_timeout : ℤ → Option ℕ → Client f k → Client f k
  set_timeout d none c = record c { timeout = d }
  set_timeout d (some p) c = record c { timeout = d; http_timeouts = write c.http_timeouts p d }

  unfoldable pub with_timeout : ℤ → ClientOption f k
  unfolding set_timeout
  with_timeout d c = some (set_timeout d c.http_client c)

  unfoldable pub with_retry_condition : Option k.RetryCondition → ClientOption f k
  with_retry_condition fn c = some (record c { retry_condition = fn })

  unfoldable pub with_retry_policy : Option k.RetryPolicy → ClientOption f k
  with_retry_policy policy c = some (record c { retry_policy = policy })

  unfoldable pub with_retry_budget : ℤ → ℤ → ℤ → ClientOption f k
  unfolding new_retry_budget
  with_retry_budget max_retries per_window now c =
      some (record c { retry_budget = some (new_retry_budget max_retries per_window now) })

  unfoldable pub with_circuit_breaker : CircuitBreakerConfig → ClientOption f k
  unfolding new_circuit_breaker
  with_circuit_breaker config c = some (record c { circuit_breaker = new_circuit_breaker config })

  unfoldable pub with_middleware : List (Option k.Middleware) → ClientOption f k
  with_middleware ms c = some (record c { middleware = c.middleware ++ ms })

  -- A nil http.Client is dereferenced, unless the timeout is zero.
  unfoldable pub use_http_client : Bool → Option ℕ → ClientOption f k
  use_http_client true client c = some (record c { http_client = client })
  use_http_client false none c = none
  use_http_client false (some p) c =
      some (record c { http_client = some p; http_timeouts = write c.http_timeouts p c.timeout })

  unfoldable pub with_http_client : Option ℕ → ClientOption f k
  unfolding use_http_client
  with_http_client client c = use_http_client (eqb_ℤ c.timeout (pos 0)) client c

  unfoldable pub with_metrics : ClientOption f k
  with_metrics c = some (record c { metrics = some k.new_metrics_collector })

  unfoldable pub with_metrics_collector : Option k.MetricsCollector → ClientOption f k
  with_metrics_collector collector c = some (record c { metrics = collector })

  -- `c.debug` with a default, changed.
  unfoldable pub edit_debug :
      (DebugConfig f k → DebugConfig f k) → Option ℕ → Client f k → Client f k
  edit_debug edit none c = record c {
    debug = some c.next;
    debug_configs = write c.debug_configs c.next (edit (default_debug_config f k));
    next = suc c.next;
  }
  edit_debug edit (some p) c = record c {
    debug_configs = write c.debug_configs p (edit (c.debug_configs p));
  }

  unfoldable pub with_debug : ClientOption f k
  unfolding edit_debug
  with_debug c = some (edit_debug (λ d. record d { enabled = true }) c.debug c)

  unfoldable pub with_debug_config : Option ℕ → ClientOption f k
  with_debug_config config c = some (record c { debug = config })

  unfoldable pub with_logger : Option k.Logger → ClientOption f k
  with_logger logger c = some (record c { logger = logger })

  unfoldable pub with_simple_logger : ClientOption f k
  unfolding edit_debug
  with_simple_logger c = some (record (edit_debug (λ d. record d { enabled = true }) c.debug c) {
    logger = some k.new_simple_logger;
  })

  unfoldable pub with_request_id_generator : Option k.Generator → ClientOption f k
  unfolding edit_debug
  with_request_id_generator gen c =
      some (edit_debug (λ d. record d { request_id_gen = gen }) c.debug c)

  unfoldable pub with_deduplication : ClientOption f k
  unfolding new_deduplication_tracker
  with_deduplication c = some (record c { deduplication = some new_deduplication_tracker })

  unfoldable pub with_deduplication_key_func : Option (Request → String) → ClientOption f k
  with_deduplication_key_func fn c = some (record c { dedup_key_func = fn })

  unfoldable pub with_deduplication_condition : Option (Request → Bool) → ClientOption f k
  with_deduplication_condition fn c = some (record c { dedup_condition = fn })

  unfoldable pub with_single_flight_enabled : Bool → ClientOption f k
  with_single_flight_enabled enabled c = some (record c { single_flight_enabled = enabled })
