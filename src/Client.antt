-- ===== src/Client.antt =====
-- The client's attempts: `doWithRetry`, `executeMiddleware` and `createClientError` of client.go.
-- The clock, the transport, the random numbers and the sleeping are a parameter; the
-- metrics collector is the list of the calls that it is given, newest first. The logger is left out.
pub mod Middleware
pub mod Attempts
pub mod CacheRules
pub mod Requests
mod Examples
use text.Mathlib.Text.{◌==◌}
use Prim.Native.String.{◌++◌}
use klayengo.Prelude.{
  ℕ, zero, suc, Bool, true, false, ◌&&◌, ◌||◌, not, if◌then◌else◌, String, Option, none, some, List,
  [], ◌∷◌,
}
use mathlib.Core.List.{reverse}
use klayengo.Prelude.Int.{ℤ, pos, ltb_ℤ, leb_ℤ}
use klayengo.Prelude.Int64.{add64, saturating_sub64}
use klayengo.Http.{Request, Response, Url}
use klayengo.Errors.{
  ErrorInfo, Sentinel, circuit_open, rate_limited, retry_budget_exceeded, Error, sentinel,
  client_error, wrapped, error_type_network, error_type_rate_limit, error_type_circuit_open,
  error_type_retry_budget_exceeded,
}
use klayengo.Breaker.{CircuitBreaker, CircuitState, record_failure, record_success}
use klayengo.Breaker
use klayengo.Limiter.{RateLimiter}
use klayengo.Registry.{LimiterRef, limiter_at, LimiterStore, RateLimiterRegistry, allow_ref}
use klayengo.Registry
use klayengo.Budget.{RetryBudget}
use klayengo.Budget
use klayengo.Backoff.{Float, Settings, calculate_backoff}

-- What a round trip gives.
abbrev pub Exchange : Type 0
Exchange = Option Response × Option Error

-- The world outside the client.
pub record Env (f : Float) : Type 1 where
  pub World : Type 0
  pub now : World → ℤ × World
  pub random : World → f.float64 × World
  pub sleep : ℤ → World → World
  pub transport : Request → World → Exchange × World

-- The calls of the metrics collector; methods and endpoints are those of the request.
pub data Metric : Type 0 where
  request_start request_end cache_hit cache_miss deduplication_hit : String → String → Metric
  -- The status, and the duration.
  request_done : String → String → ℤ → ℤ → Metric
  cache_size : ℤ → Metric
  retry : String → String → ℤ → Metric
  error : String → String → String → Metric
  breaker_state : CircuitState → Metric
  limiter_tokens : String → ℤ → Metric
  limiter_exceeded : String → Metric
  budget_exceeded : String → Metric

-- `getEndpointFromRequest`.
unfoldable pub get_endpoint : Request → String
get_endpoint req = elim req.url [
  | none ↦ "unknown"
  | some u ↦ u.host ++ (if not (u.path == "") && not (u.path == "/") then u.path else "/")
]

module _ (f : Float) (env : Env f) where
  open env use {World, now, random, sleep, transport}

  abbrev pub RoundTripper : Type 0
  RoundTripper = Request → World → Exchange × World

  abbrev pub Middleware : Type 0
  Middleware = Request → RoundTripper → World → Exchange × World

  -- `ShouldRetry` of a retry policy; `none` is a fault in it.
  abbrev pub RetryPolicy : Type 0
  RetryPolicy = Option Response → Option Error → ℤ → World → Option (ℤ × Bool) × World

  -- The loop of `executeMiddleware`, over the middleware from the last to the first.
  wrap : List Middleware → RoundTripper → RoundTripper
  wrap [] current = current
  wrap (m ∷ ms) current = wrap ms (λ r w. m r current w)

  unfoldable pub execute_middleware : List Middleware → Request → World → Exchange × World
  unfolding wrap
  execute_middleware [] req w = transport req w
  execute_middleware (m ∷ ms) req w = wrap (reverse (m ∷ ms)) transport req w

  -- The client's settings that these methods read. A retry policy is any implementation of the
  -- interface; a retry condition that reads a nil response is a fault, `none`.
  pub record Config : Type 0 where
    pub max_retries : ℤ
    pub settings : Settings f
    pub retry_condition : Option Response → Option Error → Option Bool
    pub retry_policy : Option RetryPolicy
    pub middleware : List Middleware
    pub has_metrics : Bool

  -- What the methods change.
  pub record State : Type 0 where
    pub circuit_breaker : CircuitBreaker
    pub limiters : LimiterStore
    pub rate_limiter : Option ℕ
    pub limiter_registry : Option RateLimiterRegistry
    pub retry_budget : Option RetryBudget
    pub metrics : List Metric
    pub world : World

  unfoldable pub client_error_at :
      Option Url → Config → String → String → Error → String → Request → ℤ → ℤ → ℤ → Option Error
  unfolding get_endpoint
  client_error_at none c type_name message cause request_id req attempt duration timestamp = none
  client_error_at (some u) c type_name message cause request_id req attempt duration timestamp =
      some (
        client_error
          (record {
            type_name = type_name;
            message = message;
            request_id = request_id;
            method = req.method;
            url = u.text;
            attempt = attempt;
            max_retries = c.max_retries;
            timestamp = timestamp;
            duration = duration;
            status_code = pos 0;
            endpoint = get_endpoint req;
          })
          (wrapped message cause))

  -- `createClientError` of a cause that is not nil, at the two readings of the clock. The text of a nil
  -- URL is a fault, `none`.
  unfoldable pub create_client_error :
      Config → String → String → Error → String → Request → ℤ → ℤ → ℤ → Option Error
  unfolding client_error_at
  create_client_error c type_name message cause request_id req attempt duration timestamp =
      client_error_at req.url c type_name message cause request_id req attempt duration timestamp

  -- A fault stops the program: a nil dereference in a limiter, in the retry policy or condition, or
  -- of the request's URL.
  pub data Outcome : Type 0 where
    returned : Option Response → Option Error → Outcome
    fault : Outcome
    out_of_fuel : Outcome

  -- How one attempt ends: with a result, or with a retry after the sleep.
  pub data Step : Type 0 where
    stop : Outcome → State → Step
    again : State → Step

  pub record_metric : Config → Metric → State → State
  record_metric c m s = if c.has_metrics then record s { metrics = m ∷ s.metrics } else s

  -- The request as one call of `doWithRetry` has it.
  pub record Call : Type 0 where
    pub req : Request
    pub request_id : String
    pub start_time : ℤ

  pub failed_with : Option Error → State → Step
  failed_with none s = stop fault s
  failed_with (some e) s = stop (returned none (some e)) s

  -- The end with a client error: `time.Since(startTime)` and `time.Now()` are read.
  pub fail : Config → Call → ℤ → String → String → Error → State → Step
  unfolding create_client_error failed_with
  fail c call attempt type_name message cause s =
      let (t1, w1) = now s.world in
      let (t2, w2) = now w1 in
      failed_with
        (create_client_error c type_name message cause call.request_id call.req attempt
          (saturating_sub64 t1 call.start_time) t2)
        (record s { world = w2 })

  -- `c.rateLimiter.Allow()` or the registry's; the key is for the metrics.
  pub limiter_allow :
      Option RateLimiterRegistry
      → Option ℕ
      → LimiterStore
      → Request
      → ℤ
      → Option (LimiterStore × Bool × String)
  limiter_allow (some r) rl store req t = Registry.allow r store req t
  limiter_allow none (some p) store req t = elim (allow_ref (limiter_at p) store t) [
    | none ↦ none
    | some (store', granted) ↦ some (store', granted, "default")
  ]
  limiter_allow none none store req t = some (store, true, "none")

  -- The retry decision, with the delay.
  pub data Decision : Type 0 where
    give_up : State → Decision
    retry_after : ℤ → State → Decision
    broken : Decision

  decide_legacy : Config → Option Bool → ℤ → State → Decision
  decide_legacy c none attempt s = broken
  decide_legacy c (some false) attempt s = give_up s
  decide_legacy c (some true) attempt s =
      let (r, w) = random s.world in
      retry_after (calculate_backoff f c.settings attempt r) (record s { world = w })

  legacy_if : Bool → Config → Exchange → ℤ → State → Decision
  unfolding decide_legacy
  legacy_if false c ex attempt s = give_up s
  legacy_if true c ex attempt s = decide_legacy c (c.retry_condition ex.0 ex.1) attempt s

  -- A policy's answer: the delay and whether to retry.
  answer_of : Option (ℤ × Bool) → State → Decision
  answer_of none s = broken
  answer_of (some (delay, true)) s = retry_after delay s
  answer_of (some (delay, false)) s = give_up s

  decide_by : Option RetryPolicy → Config → Exchange → ℤ → State → Decision
  unfolding legacy_if answer_of
  decide_by none c ex attempt s = legacy_if (ltb_ℤ attempt c.max_retries) c ex attempt s
  decide_by (some policy) c ex attempt s =
      let (answer, w) = policy ex.0 ex.1 attempt s.world in
      answer_of answer (record s { world = w })

  pub decide : Config → Exchange → ℤ → State → Decision
  unfolding decide_by
  decide c ex attempt s = decide_by c.retry_policy c ex attempt s
