-- ===== src/Breaker/Refinement.antt =====
-- The optimised breaker answers as the plain one.
use klayengo.Prelude.{◌≡◌, refl, Bool, List, [], ◌∷◌, arith}
use klayengo.Breaker.{
  CircuitBreakerConfig, CircuitBreaker, state_closed, new_circuit_breaker, allow, record_failure,
  record_success, Call, allows, fails, succeeds,
}
use klayengo.Breaker.Cycle.{answers}
use klayengo.Breaker.Optimized.{OptimizedCircuitBreaker, new_optimized_circuit_breaker}
use klayengo.Breaker.Optimized

pub optimized_answers : OptimizedCircuitBreaker → List Call → List Bool
optimized_answers cb [] = []
optimized_answers cb (allows now ∷ cs) =
    (Optimized.allow cb now).1 ∷ optimized_answers (Optimized.allow cb now).0 cs
optimized_answers cb (fails now ∷ cs) = optimized_answers (Optimized.record_failure cb now) cs
optimized_answers cb (succeeds ∷ cs) = optimized_answers (Optimized.record_success cb) cs

-- The failure counts agree while closed: the optimised breaker also counts failures while open.
pub record Same (a : CircuitBreaker) (b : OptimizedCircuitBreaker) : Type 0 where
  pub failure_threshold : b.failure_threshold ≡ a.config.failure_threshold
  pub recovery_timeout : b.recovery_timeout ≡ a.config.recovery_timeout
  pub success_threshold : b.success_threshold ≡ a.config.success_threshold
  pub state : b.state ≡ a.state
  pub last_failure : b.last_failure ≡ a.last_failure
  pub successes : b.successes ≡ a.successes
  pub failures : a.state ≡ state_closed → b.failures ≡ a.failures

new-Same :
    (c : CircuitBreakerConfig) → Same (new_circuit_breaker c) (new_optimized_circuit_breaker c)
unfolding new_circuit_breaker new_optimized_circuit_breaker
new-Same c = ground arith

allow-Same :
    (a : CircuitBreaker) (b : OptimizedCircuitBreaker) (now : _)
    → Same a b
    → Same (allow a now).0 (Optimized.allow b now).0 × ((Optimized.allow b now).1 ≡ (allow a now).1)
unfolding allow Optimized.allow
allow-Same a b now s = ground arith

record_failure-Same :
    (a : CircuitBreaker) (b : OptimizedCircuitBreaker) (now : _)
    → Same a b
    → Same (record_failure a now) (Optimized.record_failure b now)
unfolding record_failure Optimized.record_failure
record_failure-Same a b now s = ground arith

record_success-Same :
    (a : CircuitBreaker) (b : OptimizedCircuitBreaker)
    → Same a b
    → Same (record_success a) (Optimized.record_success b)
unfolding record_success Optimized.record_success
record_success-Same a b s = ground arith

answers-Same :
    (a : CircuitBreaker) (b : OptimizedCircuitBreaker) (cs : List Call)
    → Same a b
    → optimized_answers b cs ≡ answers a cs
unfolding answers optimized_answers
answers-Same a b [] s = refl
answers-Same a b (allows now ∷ cs) s =
    let (t, e) = allow-Same a b now s in
    cc (e, answers-Same (allow a now).0 (Optimized.allow b now).0 cs t)
answers-Same a b (fails now ∷ cs) s = answers-Same _ _ cs (record_failure-Same a b now s)
answers-Same a b (succeeds ∷ cs) s = answers-Same _ _ cs (record_success-Same a b s)

-- From the same configuration, the plain and the optimised breaker give the same answers to the
-- `Allow` calls of any history of calls.
pub optimized_answers-new :
    (c : CircuitBreakerConfig) (cs : List Call)
    → optimized_answers (new_optimized_circuit_breaker c) cs ≡ answers (new_circuit_breaker c) cs
optimized_answers-new c cs = answers-Same _ _ cs (new-Same c)
