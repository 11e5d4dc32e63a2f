-- ===== src/Client/Attempts/Validated.antt =====
-- The attempts of a client whose settings pass `ValidateConfiguration` (options.go).
use klayengo.Prelude.{ℕ, suc, ◌+◌, ◌≤◌, ◌≡◌, refl, ◌∙◌, Bool, String, none, [], arith}
use klayengo.Prelude.Int.{ℤ, pos, negsuc, ◌≤ℤ◌}
use klayengo.Backoff.{Float}
use klayengo.Validation.{ClientSettings, validate_configuration}
use klayengo.Validation.Sound.{validate_configuration-Within}
use klayengo.Client.{Env, Config, State, Call, execute_middleware}
use klayengo.Client.Attempts.{do_with_retry}
use klayengo.Client.Attempts.Fuel.{Bounded, do_with_retry-finishes}

natural : (z : ℤ) → pos 0 ≤ℤ z → z ≤ℤ pos 100 → (m : ℕ) × (z ≡ pos m) × (m ≤ 100)
natural (pos m) h g = (m, refl, omega (arith, g))
natural (negsuc m) h g = ground (arith, h)

module _ (f : Float) (le : f.float64 → f.float64 → Bool) (print_int : ℤ → String) (env : Env f)
    (c : Config f env) (call : Call f env) (sent : env.World → ℕ)
    (sent-now : (w : env.World) → sent (env.now w).1 ≡ sent w)
    (sent-random : (w : env.World) → sent (env.random w).1 ≡ sent w)
    (sent-sleep : (d : ℤ) (w : env.World) → sent (env.sleep d w) ≡ sent w)
    (sent-execute : (w : env.World)
      → sent (execute_middleware f env c.middleware call.req w).1 ≤ suc (sent w)) where
  -- A client whose settings give no message in `ValidateConfiguration` and that has no retry policy
  -- makes at most 101 attempts: `doWithRetry` ends within 101 units of fuel, and executes the
  -- middleware and the transport at most 101 times, in any measure of the world that an execution
  -- raises by at most one and the clock, the random numbers and the sleeping leave as it is.
  pub do_with_retry-validated :
      (settings : ClientSettings f)
      → validate_configuration f le print_int settings ≡ []
      → c.max_retries ≡ settings.max_retries
      → c.retry_policy ≡ none
      → (s : State f env)
      → Bounded f env c call sent (sent s.world + 101) (do_with_retry f env c call 101 (pos 0) s)
  do_with_retry-validated settings valid same no_policy s =
      let within = validate_configuration-Within f le print_int settings valid in
      let (m, is_pos, few) =
        natural settings.max_retries within.least_retries within.most_retries in
      let (ends, bound) =
        do_with_retry-finishes f env c call sent sent-now sent-random sent-sleep sent-execute
          no_policy m (same ∙ is_pos) (omega (arith, few)) 101 0 s (omega arith)
          (omega (arith, few)) in
      (ends, omega (arith, bound, few))
