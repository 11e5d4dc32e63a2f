-- ===== src/Client/Attempts.antt =====
-- `doWithRetry` of client.go: one attempt in its stages, and the recursion over the attempts.
-- The clock is read before each call of the breaker, the limiter and the budget, also where the
-- call does not look at it. A loop over the registry's map runs in the order of its entries.
mod Decisions
pub mod Ends
pub mod Errors
pub mod Fuel
pub mod Unregistered
pub mod Validated
use klayengo.Prelude.{
  ℕ, zero, suc, Bool, true, false, if◌then◌else◌, String, Option, none, some, List, [], ◌∷◌, ◌++◌,
}
use klayengo.Prelude.Int.{ℤ, pos, ltb_ℤ, leb_ℤ}
use klayengo.Prelude.Int64.{add64}
use klayengo.Http.{Request, Response}
use klayengo.Errors.{
  circuit_open, rate_limited, retry_budget_exceeded, Error, sentinel, error_type_network,
  error_type_rate_limit, error_type_circuit_open, error_type_retry_budget_exceeded,
}
use klayengo.Breaker.{CircuitBreaker, CircuitState, record_failure, record_success}
use klayengo.Breaker
use klayengo.Registry.{
  LimiterRef, nil_limiter, typed_nil, limiter_at, LimiterStore, RateLimiterRegistry,
}
use klayengo.Budget.{RetryBudget}
use klayengo.Budget
use klayengo.Backoff.{Float}
use klayengo.Client.{
  Exchange, Env, Metric, retry, error, breaker_state, limiter_tokens, limiter_exceeded,
  budget_exceeded, get_endpoint, execute_middleware, Config, State, Outcome, returned, fault,
  out_of_fuel, Step, stop, again, record_metric, Call, fail, limiter_allow, Decision, give_up,
  retry_after, broken, decide,
}

abbrev pub has_failed : Exchange → Bool
has_failed (resp, some err) = true
has_failed (none, none) = false
has_failed (some resp, none) = leb_ℤ (pos 500) resp.status_code

abbrev pub failure_class : Exchange → String
failure_class (resp, some err) = "Network"
failure_class (resp, none) = "Server"

-- The gauge of one limiter of the registry: a limiter that is no *RateLimiter has none, and a nil
-- *RateLimiter is a fault, `none`.
limiter_gauge : LimiterStore → String → LimiterRef → Option (List Metric)
limiter_gauge store key nil_limiter = some []
limiter_gauge store key typed_nil = none
limiter_gauge store key (limiter_at p) = some (limiter_tokens key (store p).tokens ∷ [])

-- The second list, then the first, unless one of them is a fault.
both : Option (List Metric) → Option (List Metric) → Option (List Metric)
both (some first) (some second) = some (second ++ first)
both none second = none
both (some first) none = none

-- The gauges of the registry's limiters, the last one first.
registry_gauges : LimiterStore → List (String × LimiterRef) → Option (List Metric)
unfolding limiter_gauge both
registry_gauges store [] = some []
registry_gauges store ((key, limiter) ∷ rest) =
    both (limiter_gauge store key limiter) (registry_gauges store rest)

default_gauge : LimiterStore → Option ℕ → List Metric
default_gauge store none = []
default_gauge store (some p) = limiter_tokens "default" (store p).tokens ∷ []

token_gauges : LimiterStore → Option RateLimiterRegistry → Option ℕ → Option (List Metric)
unfolding registry_gauges default_gauge both
token_gauges store none rate_limiter = some (default_gauge store rate_limiter)
token_gauges store (some r) rate_limiter =
    both (registry_gauges store r.limiters) (some (default_gauge store rate_limiter))

module _ (f : Float) (env : Env f) (c : Config f env) (call : Call f env) where
  open env use {now, sleep}

  schedule : ℤ → State f env → Step f env
  schedule delay s = again (record s { world = sleep delay s.world })

  charge : ℤ → ℤ → Option RetryBudget → State f env → Step f env
  unfolding schedule
  charge attempt delay none s = schedule delay s
  charge attempt delay (some rb) s =
      let (t, w) = now s.world in
      let (rb', granted) = Budget.allow rb t in
      let charged = record s { retry_budget = some rb'; world = w } in
      if granted
      then schedule delay charged
      else fail f env c call attempt error_type_retry_budget_exceeded "retry budget exceeded"
          (sentinel retry_budget_exceeded)
          (record_metric f env c (budget_exceeded (get_endpoint call.req)) charged)

  deliver : ℤ → Exchange → State f env → Step f env
  deliver attempt (resp, some err) s =
      fail f env c call attempt error_type_network "network request failed" err s
  deliver attempt (resp, none) s = stop (returned resp none) s

  conclude : ℤ → Exchange → Decision f env → State f env → Step f env
  unfolding charge deliver
  conclude attempt ex broken s = stop fault s
  conclude attempt ex (retry_after delay s') s = charge attempt delay s'.retry_budget s'
  conclude attempt ex (give_up s') s = deliver attempt ex s'

  -- The breaker hears how the exchange went.
  account : Exchange → State f env → State f env
  account ex s =
      if has_failed ex
      then (let (t, w) = now s.world in
          let cb = record_failure s.circuit_breaker t in
          record_metric f env c (error (failure_class ex) call.req.method (get_endpoint call.req)) (
            record_metric f env c (breaker_state cb.state)
              (record s { circuit_breaker = cb; world = w })))
      else (let cb = record_success s.circuit_breaker in
          record_metric f env c (breaker_state cb.state) (record s { circuit_breaker = cb }))

  announce : ℤ → State f env → State f env
  announce attempt s =
      if ltb_ℤ (pos 0) attempt
      then record_metric f env c (retry call.req.method (get_endpoint call.req) attempt) s
      else s

  -- Past the limiter and the breaker.
  send : ℤ → State f env → Step f env
  unfolding announce account conclude
  send attempt s =
      let announced = announce attempt s in
      let (ex, w) = execute_middleware f env c.middleware call.req announced.world in
      let heard = account ex (record announced { world = w }) in
      conclude attempt ex (decide f env c ex attempt heard) heard

  pass_breaker : ℤ → State f env → Step f env
  unfolding send
  pass_breaker attempt s =
      let (t, w) = now s.world in
      let (cb, granted) = Breaker.allow s.circuit_breaker t in
      let asked = record s { circuit_breaker = cb; world = w } in
      if granted
      then send attempt asked
      else fail f env c call attempt error_type_circuit_open "circuit breaker is open"
          (sentinel circuit_open)
          (record_metric f env c (error "CircuitBreaker" call.req.method (get_endpoint call.req))
            asked)

  pass_gauges : ℤ → Option (List Metric) → State f env → Step f env
  unfolding pass_breaker
  pass_gauges attempt none s = stop fault s
  pass_gauges attempt (some gauges) s =
      pass_breaker attempt (record s { metrics = gauges ++ s.metrics })

  pass_limiter : ℤ → Option (LimiterStore × Bool × String) → State f env → Step f env
  unfolding pass_gauges token_gauges
  pass_limiter attempt none s = stop fault s
  pass_limiter attempt (some (store, true, key)) s =
      pass_gauges attempt
        (if c.has_metrics then token_gauges store s.limiter_registry s.rate_limiter else some [])
        (record s { limiters = store })
  pass_limiter attempt (some (store, false, key)) s =
      fail f env c call attempt error_type_rate_limit "rate limit exceeded" (sentinel rate_limited)
        (record_metric f env c (limiter_exceeded key) (
          record_metric f env c (error "RateLimit" call.req.method (get_endpoint call.req))
            (record s { limiters = store })))

  unfoldable pub attempt_once : ℤ → State f env → Step f env
  unfolding pass_limiter limiter_allow
  attempt_once attempt s =
      let (t, w) = now s.world in
      pass_limiter attempt
        (limiter_allow f env s.limiter_registry s.rate_limiter s.limiters call.req t)
        (record s { world = w })

  continue_by :
      (State f env → Outcome f env × State f env) → Step f env → Outcome f env × State f env
  continue_by rest (stop o s) = (o, s)
  continue_by rest (again s) = rest s

  -- One unit of fuel is one attempt.
  unfoldable pub do_with_retry : ℕ → ℤ → State f env → Outcome f env × State f env
  unfolding attempt_once continue_by
  do_with_retry zero attempt s = (out_of_fuel, s)
  do_with_retry (suc n) attempt s =
      continue_by (λ s'. do_with_retry n (add64 attempt (pos 1)) s') (attempt_once attempt s)
