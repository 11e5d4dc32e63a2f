-- ===== src/Breaker/Optimized.antt =====
-- The circuit breaker of circuit_breaker_optimized.go, one call at a time.
use klayengo.Prelude.{Bool, true, false, ◌&&◌, if◌then◌else◌, Option, none, some}
use klayengo.Prelude.Int.{ℤ, pos, ltb_ℤ, leb_ℤ}
use klayengo.Prelude.Int64.{add64, sub64}
use klayengo.Breaker.{
  CircuitBreakerConfig, with_defaults, CircuitState, state_closed, state_open, state_half_open,
}

pub record OptimizedCircuitBreaker : Type 0 where
  pub failure_threshold : ℤ
  pub recovery_timeout : ℤ
  pub success_threshold : ℤ
  pub state : CircuitState
  pub failures : ℤ
  pub last_failure : ℤ
  pub successes : ℤ
  pub state_mask : ℤ

unfoldable pub new_optimized_circuit_breaker : CircuitBreakerConfig → OptimizedCircuitBreaker
unfolding with_defaults
new_optimized_circuit_breaker config =
    let c = with_defaults config in
    record {
      failure_threshold = c.failure_threshold;
      recovery_timeout = c.recovery_timeout;
      success_threshold = c.success_threshold;
      state = state_closed;
      failures = pos 0;
      last_failure = pos 0;
      successes = pos 0;
      state_mask = pos 0;
    }

allow_in : CircuitState → OptimizedCircuitBreaker → ℤ → OptimizedCircuitBreaker × Bool
allow_in state_closed cb now = (cb, true)
allow_in state_open cb now =
    if leb_ℤ cb.recovery_timeout (sub64 now cb.last_failure)
    then (record cb { state = state_half_open; successes = pos 0 }, true)
    else (cb, false)
allow_in state_half_open cb now = (cb, true)

unfoldable pub allow : OptimizedCircuitBreaker → ℤ → OptimizedCircuitBreaker × Bool
unfolding allow_in
allow cb now = allow_in cb.state cb now

failure_in : CircuitState → OptimizedCircuitBreaker → OptimizedCircuitBreaker
failure_in state_closed cb =
    let counted = record cb { failures = add64 cb.failures (pos 1) } in
    if leb_ℤ cb.failure_threshold counted.failures
    then record counted { state = state_open }
    else counted
failure_in state_open cb = record cb { failures = add64 cb.failures (pos 1) }
failure_in state_half_open cb = record cb {
  successes = pos 0;
  failures = add64 cb.failures (pos 1);
  state = state_open;
}

unfoldable pub record_failure : OptimizedCircuitBreaker → ℤ → OptimizedCircuitBreaker
unfolding failure_in
record_failure cb now = failure_in cb.state (record cb { last_failure = now })

success_in : CircuitState → OptimizedCircuitBreaker → OptimizedCircuitBreaker
success_in state_half_open cb =
    let counted = record cb { successes = add64 cb.successes (pos 1) } in
    if leb_ℤ cb.success_threshold counted.successes
    then record counted { state = state_closed; failures = pos 0; successes = pos 0 }
    else counted
success_in _ cb = cb

unfoldable pub record_success : OptimizedCircuitBreaker → OptimizedCircuitBreaker
unfolding success_in
record_success cb = success_in cb.state cb

unfoldable pub reset : OptimizedCircuitBreaker → OptimizedCircuitBreaker
reset cb = record cb {
  state = state_closed;
  failures = pos 0;
  successes = pos 0;
  last_failure = pos 0;
}

-- `none` for the zero `time.Time`.
pub record CircuitBreakerStats : Type 0 where
  pub state : CircuitState
  pub failures : ℤ
  pub successes : ℤ
  pub last_failure : Option ℤ
  pub is_recovered : Bool
  pub time_to_recover : ℤ

is_open_state : CircuitState → Bool
is_open_state state_open = true
is_open_state _ = false

unfoldable pub get_stats : OptimizedCircuitBreaker → ℤ → CircuitBreakerStats
unfolding is_open_state
get_stats cb now =
    let elapsed = sub64 now cb.last_failure in
    let failed = ltb_ℤ (pos 0) cb.last_failure in
    let waiting = failed && is_open_state cb.state in
    let recovered = leb_ℤ cb.recovery_timeout elapsed in
    record {
      state = cb.state;
      failures = cb.failures;
      successes = cb.successes;
      last_failure = if failed then some cb.last_failure else none;
      is_recovered = waiting && recovered;
      time_to_recover =
          if waiting
          then (if recovered then pos 0 else sub64 cb.recovery_timeout elapsed)
          else pos 0;
    }
