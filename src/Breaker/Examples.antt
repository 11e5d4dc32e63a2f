-- ===== src/Breaker/Examples.antt =====
-- The theorems on the circuit breaker at concrete breakers.
use klayengo.Prelude.{◌≡◌, refl, true, List, [], ◌∷◌, ◌++◌, arith, replicate}
use klayengo.Prelude.Int.{pos, ◌+ℤ◌}
use klayengo.Prelude.Int64.{add64, sub64}
use klayengo.Breaker.{
  CircuitBreakerConfig, CircuitBreaker, state_closed, state_open, state_half_open, with_defaults,
  new_circuit_breaker, allow, Call, allows, fails, succeeds, run, step, record_failure,
  record_success,
}
use klayengo.Breaker.Invariant.{Inv, run-new-Inv}
use klayengo.Breaker.Cycle.{answers, AllRefused, run-trips, answers-open, recovers}
use klayengo.Breaker.Optimized.{new_optimized_circuit_breaker, reset, get_stats}
use klayengo.Breaker.Optimized
use klayengo.Breaker.Refinement.{optimized_answers, optimized_answers-new}

-- Trips at the second failure, waits 10 ns, closes after two successes.
abbrev small : CircuitBreakerConfig
small = record { failure_threshold = pos 2; recovery_timeout = pos 10; success_threshold = pos 2 }

-- All fields zero: the defaults apply.
abbrev unset : CircuitBreakerConfig
unset = record { failure_threshold = pos 0; recovery_timeout = pos 0; success_threshold = pos 0 }

abbrev tripped : CircuitBreaker
tripped = record {
  config = small;
  state = state_open;
  failures = pos 2;
  last_failure = pos 5;
  successes = pos 0;
}

abbrev history : List Call
history = fails (pos 1) ∷ succeeds ∷ fails (pos 5) ∷ allows (pos 9) ∷ allows (pos 15) ∷ []

trips_at_two : (run (new_circuit_breaker small) history).state ≡ state_half_open
unfolding run step new_circuit_breaker allow record_failure record_success sub64 add64
trips_at_two = refl

run-new-Inv_example : Inv (run (new_circuit_breaker unset) history)
unfolding with_defaults
run-new-Inv_example = run-new-Inv unset history (omega arith)

run-trips_example :
    ((run (new_circuit_breaker small) (fails (pos 1) ∷ succeeds ∷ [])).state ≡ state_closed)
    × ((run
          (new_circuit_breaker small)
          ((fails (pos 1) ∷ succeeds ∷ []) ++ fails (pos 5) ∷ [])).state
        ≡ state_open)
    × ((run
          (new_circuit_breaker small)
          ((fails (pos 1) ∷ succeeds ∷ []) ++ fails (pos 5) ∷ [])).last_failure
        ≡ pos 5)
unfolding new_circuit_breaker with_defaults
run-trips_example =
    run-trips (new_circuit_breaker small) 0 (fails (pos 1) ∷ succeeds ∷ []) (pos 5) (omega arith)
      refl refl refl

answers-open_example :
    ((run tripped (allows (pos 9) ∷ fails (pos 8) ∷ allows (pos 14) ∷ [])).state ≡ state_open)
    × AllRefused (answers tripped (allows (pos 9) ∷ fails (pos 8) ∷ allows (pos 14) ∷ []))
unfolding ◌+ℤ◌
answers-open_example =
    answers-open (pos 5) (pos 10) (omega arith) tripped
      (allows (pos 9) ∷ fails (pos 8) ∷ allows (pos 14) ∷ []) refl refl (omega arith) (omega arith)

recovers_example :
    ((allow tripped (pos 15)).1 ≡ true)
    × ((run tripped (allows (pos 15) ∷ replicate 1 succeeds)).state ≡ state_half_open)
    × ((run tripped (allows (pos 15) ∷ replicate 2 succeeds)).state ≡ state_closed)
    × ((run tripped (allows (pos 15) ∷ replicate 2 succeeds)).failures ≡ pos 0)
unfolding sub64
recovers_example = recovers tripped (pos 15) 1 (omega arith) refl (omega arith) refl

optimized_answers-new_example :
    optimized_answers (new_optimized_circuit_breaker small) history
    ≡ answers (new_circuit_breaker small) history
optimized_answers-new_example = optimized_answers-new small history

-- `Reset` and `GetStats` of the optimised breaker.
reset_recovers :
    (get_stats
      (reset (Optimized.record_failure (new_optimized_circuit_breaker small) (pos 3)))
      (pos 4)).state
    ≡ state_closed
unfolding get_stats reset
reset_recovers = refl
