-- ===== src/Breaker.antt =====
-- The circuit breaker of circuit_breaker.go (types in types.go), one call at a time. A method
-- takes the reading of the clock that the source asks for, and returns the new breaker.
pub mod Optimized
pub mod Invariant
pub mod Cycle
pub mod Refinement
mod Examples
use klayengo.Prelude.{◌-◌, Bool, true, false, if◌then◌else◌, List, [], ◌∷◌}
use klayengo.Prelude.Int.{ℤ, pos, leb_ℤ, eqb_ℤ}
use klayengo.Prelude.Int64.{add64, sub64}

pub record CircuitBreakerConfig : Type 0 where
  pub failure_threshold : ℤ
  pub recovery_timeout : ℤ
  pub success_threshold : ℤ

pub data CircuitState : Type 0 where
  state_closed state_open state_half_open : CircuitState

pub record CircuitBreaker : Type 0 where
  pub config : CircuitBreakerConfig
  pub state : CircuitState
  pub failures : ℤ
  pub last_failure : ℤ
  pub successes : ℤ

-- A zero field takes its default; durations are nanoseconds.
unfoldable pub with_defaults : CircuitBreakerConfig → CircuitBreakerConfig
with_defaults c = record {
  failure_threshold = if eqb_ℤ c.failure_threshold (pos 0) then pos 5 else c.failure_threshold;
  recovery_timeout =
      if eqb_ℤ c.recovery_timeout (pos 0) then pos 60_000_000_000 else c.recovery_timeout;
  success_threshold = if eqb_ℤ c.success_threshold (pos 0) then pos 2 else c.success_threshold;
}

unfoldable pub new_circuit_breaker : CircuitBreakerConfig → CircuitBreaker
unfolding with_defaults
new_circuit_breaker c = record {
  config = with_defaults c;
  state = state_closed;
  failures = pos 0;
  last_failure = pos 0;
  successes = pos 0;
}

-- The compare-and-swap on the state succeeds, since no other call runs in between.
allow_in : CircuitState → CircuitBreaker → ℤ → CircuitBreaker × Bool
allow_in state_closed cb now = (cb, true)
allow_in state_open cb now =
    if leb_ℤ cb.config.recovery_timeout (sub64 now cb.last_failure)
    then (record cb { state = state_half_open; successes = pos 0 }, true)
    else (cb, false)
allow_in state_half_open cb now = (cb, true)

unfoldable pub allow : CircuitBreaker → ℤ → CircuitBreaker × Bool
unfolding allow_in
allow cb now = allow_in cb.state cb now

failure_in : CircuitState → CircuitBreaker → CircuitBreaker
failure_in state_closed cb =
    let counted = record cb { failures = add64 cb.failures (pos 1) } in
    if leb_ℤ cb.config.failure_threshold counted.failures
    then record counted { state = state_open }
    else counted
failure_in state_open cb = cb
failure_in state_half_open cb = record cb {
  failures = add64 cb.failures (pos 1);
  state = state_open;
  successes = pos 0;
}

unfoldable pub record_failure : CircuitBreaker → ℤ → CircuitBreaker
unfolding failure_in
record_failure cb now = failure_in cb.state (record cb { last_failure = now })

success_in : CircuitState → CircuitBreaker → CircuitBreaker
success_in state_closed cb = cb
success_in state_open cb = cb
success_in state_half_open cb =
    let counted = record cb { successes = add64 cb.successes (pos 1) } in
    if leb_ℤ cb.config.success_threshold counted.successes
    then record counted { state = state_closed; failures = pos 0; successes = pos 0 }
    else counted

unfoldable pub record_success : CircuitBreaker → CircuitBreaker
unfolding success_in
record_success cb = success_in cb.state cb

-- A history of calls, each with the clock's reading.
pub data Call : Type 0 where
  allows fails : ℤ → Call
  succeeds : Call

unfoldable pub step : CircuitBreaker → Call → CircuitBreaker
step cb (allows now) = (allow cb now).0
step cb (fails now) = record_failure cb now
step cb succeeds = record_success cb

unfoldable pub run : CircuitBreaker → List Call → CircuitBreaker
run cb [] = cb
run cb (c ∷ cs) = run (step cb c) cs
