-- ===== src/Options.antt =====
-- `Client` of client.go with its options as functions on it, and `New`. A client's limiters, debug settings and
-- http.Clients are shared by pointer and stand in heaps, since a caller may hand the same one to
-- several options. An option that calls NewRateLimiter or NewRetryBudget takes the clock's reading.
pub mod With
pub mod Calls
pub mod Timeouts
pub mod Limiters
pub mod Examples
use klayengo.Prelude.{
  ℕ, suc, ◌+◌, Bool, true, false, not, if◌then◌else◌, String, Option, none, some, is_some, List, [],
  ◌∷◌, ◌++◌, map, ◌==◌ as nat_eq,
}
use klayengo.Prelude.Int.{ℤ, pos, eqb_ℤ}
use klayengo.Http.{Request}
use klayengo.Breaker.{CircuitBreakerConfig, CircuitBreaker, new_circuit_breaker}
use klayengo.Limiter.{RateLimiter, new_rate_limiter}
use klayengo.Registry.{
  LimiterRef, typed_nil, limiter_at, LimiterStore, RateLimiterRegistry, new_rate_limiter_registry,
  register_limiter,
}
use klayengo.Budget.{RetryBudget, new_retry_budget}
use klayengo.Backoff.{Float, Settings, BackoffStrategy, exponential_jitter, calculator_for}
use klayengo.Cache.{InMemoryCache, new_in_memory_cache}
use klayengo.Provider.{CacheMode, ttl_only}
use klayengo.Dedup.{
  DeduplicationTracker, new_deduplication_tracker, default_deduplication_condition,
}
use klayengo.Client.CacheRules.{default_cache_key_func, default_cache_condition}
use klayengo.Validation.{ClientSettings, validate_configuration}

-- A heap with one place written.
abbrev pub write : {A : Type 0} → (ℕ → A) → ℕ → A → ℕ → A
write heap p a q = if nat_eq q p then a else heap q

-- What the options only hand on, and the values of it that the package makes itself.
pub record Kinds : Type 1 where
  pub RetryCondition : Type 0
  pub RetryPolicy : Type 0
  pub Middleware : Type 0
  pub Cache : Type 0
  pub CacheProvider : Type 0
  pub MetricsCollector : Type 0
  pub Logger : Type 0
  pub Generator : Type 0
  pub default_retry_condition : RetryCondition
  pub of_in_memory : InMemoryCache → Cache
  pub new_metrics_collector : MetricsCollector
  pub new_simple_logger : Logger
  pub generate_request_id : Generator
  pub default_deduplication_key_func : Request → String

module _ (f : Float) (k : Kinds) where
  pub record DebugConfig : Type 0 where
    pub enabled : Bool
    pub log_requests : Bool
    pub log_retries : Bool
    pub log_cache : Bool
    pub log_rate_limit : Bool
    pub log_circuit : Bool
    pub request_id_gen : Option k.Generator

  -- `Client`; a nil function, pointer or interface is `none`. The heaps come last: `next` is a free
  -- pointer in each of them.
  pub record Client : Type 0 where
    pub max_retries : ℤ
    pub settings : Settings f
    pub timeout : ℤ
    pub retry_condition : Option k.RetryCondition
    pub retry_policy : Option k.RetryPolicy
    pub retry_budget : Option RetryBudget
    pub rate_limiter : Option ℕ
    pub limiter_registry : Option RateLimiterRegistry
    pub limiter_key_func : Option (Request → String)
    pub circuit_breaker : CircuitBreaker
    pub cache : Option k.Cache
    pub cache_ttl : ℤ
    pub cache_key_func : Option (Request → String)
    pub cache_condition : Option (Request → Bool)
    pub cache_provider : Option k.CacheProvider
    pub cache_mode : CacheMode
    pub single_flight_enabled : Bool
    pub middleware : List (Option k.Middleware)
    pub http_client : Option ℕ
    pub metrics : Option k.MetricsCollector
    pub debug : Option ℕ
    pub logger : Option k.Logger
    pub deduplication : Option DeduplicationTracker
    pub dedup_key_func : Option (Request → String)
    pub dedup_condition : Option (Request → Bool)
    pub limiters : LimiterStore
    pub debug_configs : ℕ → DebugConfig
    pub http_timeouts : ℕ → ℤ
    pub next : ℕ

  -- `Option` of the source; `none` is a nil dereference.
  abbrev pub ClientOption : Type 0
  ClientOption = Client → Option Client

  abbrev pub default_debug_config : DebugConfig
  default_debug_config = record {
    enabled = false;
    log_requests = true;
    log_retries = true;
    log_cache = false;
    log_rate_limit = false;
    log_circuit = true;
    request_id_gen = some k.generate_request_id;
  }

  -- The client before the options, in heaps with the free pointer `next`.
  abbrev default_client : f.float64 → LimiterStore → (ℕ → DebugConfig) → (ℕ → ℤ) → ℕ → Client
  default_client tenth limiters debug_configs http_timeouts next = record {
    max_retries = pos 3;
    settings = record {
      initial_backoff = pos 100_000_000;
      max_backoff = pos 10_000_000_000;
      multiplier = f.of_int (pos 2);
      jitter = tenth;
      strategy = exponential_jitter;
      calculator = some (calculator_for exponential_jitter);
    };
    timeout = pos 30_000_000_000;
    retry_condition = some k.default_retry_condition;
    retry_policy = none;
    retry_budget = none;
    rate_limiter = none;
    limiter_registry = none;
    limiter_key_func = none;
    circuit_breaker =
        new_circuit_breaker (record {
          failure_threshold = pos 0;
          recovery_timeout = pos 0;
          success_threshold = pos 0;
        });
    cache = none;
    cache_ttl = pos 300_000_000_000;
    cache_key_func = some default_cache_key_func;
    cache_condition = some default_cache_condition;
    cache_provider = none;
    cache_mode = ttl_only;
    single_flight_enabled = false;
    middleware = [];
    http_client = some next;
    metrics = none;
    debug = some next;
    logger = none;
    deduplication = none;
    dedup_key_func = some k.default_deduplication_key_func;
    dedup_condition = some default_deduplication_condition;
    limiters = limiters;
    debug_configs = write debug_configs next default_debug_config;
    http_timeouts = write http_timeouts next (pos 30_000_000_000);
    next = suc next;
  }

  abbrev apply_to : Option Client → ClientOption → Option Client
  apply_to none option = none
  apply_to (some c) option = option c

  -- The loop of `New` over the options.
  unfoldable pub apply_all : Option Client → List ClientOption → Option Client
  apply_all o [] = o
  apply_all o (option ∷ options) = apply_all (apply_to o option) options

  update_backoff_calculator : Client → Client
  unfolding calculator_for
  update_backoff_calculator c = record c {
    settings = record c.settings { calculator = some (calculator_for c.settings.strategy) };
  }

  -- What `ValidateConfiguration` reads.
  pub settings_of : Client → ClientSettings f
  settings_of c = record {
    max_retries = c.max_retries;
    settings = c.settings;
    timeout = c.timeout;
    retry_budget = c.retry_budget;
    rate_limiter = elim c.rate_limiter [ none ↦ none | some p ↦ some (c.limiters p) ];
    has_limiter_registry = is_some c.limiter_registry;
    has_limiter_key_func = is_some c.limiter_key_func;
    has_cache = is_some c.cache;
    cache_ttl = c.cache_ttl;
    circuit_breaker = some c.circuit_breaker;
    debug = elim c.debug [
      | none ↦ none
      | some p ↦ some ((c.debug_configs p).enabled, is_some (c.debug_configs p).request_id_gen)
    ];
    has_logger = is_some c.logger;
    has_deduplication = is_some c.deduplication;
    has_dedup_key_func = is_some c.dedup_key_func;
    has_dedup_condition = is_some c.dedup_condition;
    middleware = map is_some c.middleware;
    has_http_client = is_some c.http_client;
  }

  module _ (le : f.float64 → f.float64 → Bool) (print_int : ℤ → String) where
    finish : Option Client → Option (Client × List String)
    unfolding update_backoff_calculator settings_of validate_configuration
    finish none = none
    finish (some c) =
        let c' = update_backoff_calculator c in
        some (c', validate_configuration f le print_int (settings_of c'))

    -- `New`: the client and the messages of its validation error; `tenth` is the float 0.1.
    unfoldable pub new_client :
        f.float64
        → LimiterStore
        → (ℕ → DebugConfig)
        → (ℕ → ℤ)
        → ℕ
        → List ClientOption
        → Option (Client × List String)
    unfolding apply_all finish
    new_client tenth limiters debug_configs http_timeouts next options =
        finish (
          apply_all (some (default_client tenth limiters debug_configs http_timeouts next)) options)
