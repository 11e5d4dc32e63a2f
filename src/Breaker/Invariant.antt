-- ===== src/Breaker/Invariant.antt =====
-- What holds of a circuit breaker between two calls.
use klayengo.Prelude.{◌≡◌, List, [], ◌∷◌, arith}
use klayengo.Prelude.Int.{pos, ◌<ℤ◌, ◌≤ℤ◌, +ℤ_parts}
use klayengo.Prelude.Int64.{InRange64, add64_exact}
use klayengo.Breaker.{
  CircuitBreakerConfig, CircuitBreaker, state_closed, state_half_open, with_defaults,
  new_circuit_breaker, allow, record_failure, record_success, Call, allows, fails, succeeds, step,
  run,
}

-- Both thresholds are positive int64 values.
pub record IsUsable (c : CircuitBreakerConfig) : Type 0 where
  pub failure_positive : pos 0 <ℤ c.failure_threshold
  pub failure_range : InRange64 c.failure_threshold
  pub success_positive : pos 0 <ℤ c.success_threshold
  pub success_range : InRange64 c.success_threshold

-- The count that the state watches is below the threshold that would end the state.
pub record Inv (cb : CircuitBreaker) : Type 0 where
  pub usable : IsUsable cb.config
  pub failures_below :
      cb.state ≡ state_closed
      → (pos 0 ≤ℤ cb.failures) × (cb.failures <ℤ cb.config.failure_threshold)
  pub successes_below :
      cb.state ≡ state_half_open
      → (pos 0 ≤ℤ cb.successes) × (cb.successes <ℤ cb.config.success_threshold)

new-Inv : (c : CircuitBreakerConfig) → IsUsable (with_defaults c) → Inv (new_circuit_breaker c)
unfolding new_circuit_breaker
new-Inv c u = record {
  usable = u;
  failures_below = λ e. (omega arith, u.failure_positive);
  successes_below = λ e. cc;
}

allow-Inv : (cb : CircuitBreaker) (now : _) → Inv cb → Inv (allow cb now).0
unfolding allow
allow-Inv cb now v = ground arith

record_failure-Inv : (cb : CircuitBreaker) (now : _) → Inv cb → Inv (record_failure cb now)
unfolding record_failure
record_failure-Inv cb now v =
    ground (arith, add64_exact cb.failures (pos 1), +ℤ_parts cb.failures (pos 1))

record_success-Inv : (cb : CircuitBreaker) → Inv cb → Inv (record_success cb)
unfolding record_success
record_success-Inv cb v =
    ground (arith, add64_exact cb.successes (pos 1), +ℤ_parts cb.successes (pos 1))

pub step-Inv : (cb : CircuitBreaker) (c : Call) → Inv cb → Inv (step cb c)
unfolding step
step-Inv cb (allows now) v = allow-Inv cb now v
step-Inv cb (fails now) v = record_failure-Inv cb now v
step-Inv cb succeeds v = record_success-Inv cb v

run-Inv : (cb : CircuitBreaker) (cs : List Call) → Inv cb → Inv (run cb cs)
unfolding run
run-Inv cb [] v = v
run-Inv cb (c ∷ cs) v = run-Inv (step cb c) cs (step-Inv cb c v)

-- Whatever calls follow its creation, a breaker whose thresholds (defaults applied) are positive
-- int64 values keeps its failure count in [0, threshold) while closed and its success count in
-- [0, threshold) while half open.
pub run-new-Inv :
    (c : CircuitBreakerConfig) (cs : List Call)
    → IsUsable (with_defaults c)
    → Inv (run (new_circuit_breaker c) cs)
run-new-Inv c cs u = run-Inv (new_circuit_breaker c) cs (new-Inv c u)
