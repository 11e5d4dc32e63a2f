-- ===== src/Client/Attempts/Fuel.antt =====
-- `doWithRetry` of client.go ends, after a bounded number of exchanges.
use klayengo.Prelude.{
  List, ℕ, zero, suc, ◌+◌, ◌-◌, ◌≤◌, ◌<◌, ◌≡◌, refl, sym, subst, ◌∙◌, Bool, true, false,
  if◌then◌else◌, Option, none, some, arith, String, Bool-cases, inl, inr,
}
use klayengo.Prelude.Int.{ℤ, pos, ltb_ℤ, ◌+ℤ◌}
use klayengo.Prelude.Int64.{add64, add64_exact, InRange64}
use klayengo.Breaker
use klayengo.Registry.{LimiterStore}
use klayengo.Errors.{Error}
use klayengo.Backoff.{Float}
use klayengo.Client.{
  failed_with, Metric, Exchange, Env, Config, State, Outcome, Step, stop, again, Call,
  execute_middleware, fail, Decision, give_up, retry_after, broken, legacy_if, decide_by, decide,
}
use klayengo.Client.Attempts.{
  deliver, conclude, send, pass_breaker, pass_gauges, pass_limiter, attempt_once, continue_by,
  do_with_retry,
}
use klayengo.Client.Attempts.Ends.{FineBy, is_out_of_fuel, attempt_once-Fine}

module _ (f : Float) (env : Env f) (c : Config f env) (call : Call f env) where
  abbrev stops : Step f env → Bool
  stops (stop o s) = true
  stops (again s) = false

  gives_up : Decision f env → Bool
  gives_up (give_up s) = true
  gives_up (retry_after d s) = false
  gives_up broken = true

  failed_with-stops : (e : Option Error) (s : State f env) → stops (failed_with f env e s) ≡ true
  unfolding failed_with
  failed_with-stops none s = refl
  failed_with-stops (some e) s = refl

  fail-stops :
      (attempt : ℤ) (kind message : String) (cause : Error) (s : State f env)
      → stops (fail f env c call attempt kind message cause s) ≡ true
  unfolding fail
  fail-stops attempt kind message cause s = failed_with-stops _ _

  deliver-stops :
      (attempt : ℤ) (ex : Exchange) (s : State f env)
      → stops (deliver f env c call attempt ex s) ≡ true
  unfolding deliver
  deliver-stops attempt (resp, none) s = refl
  deliver-stops attempt (resp, some err) s = fail-stops attempt _ _ err s

  conclude-stops :
      (attempt : ℤ) (ex : Exchange) (d : Decision f env) (s : State f env)
      → gives_up d ≡ true
      → stops (conclude f env c call attempt ex d s) ≡ true
  unfolding conclude gives_up
  conclude-stops attempt ex (give_up s') s e = deliver-stops attempt ex s'
  conclude-stops attempt ex broken s e = refl
  conclude-stops attempt ex (retry_after d s') s e = ground arith

  decide-gives_up :
      (ex : Exchange) (attempt : ℤ) (s : State f env)
      → c.retry_policy ≡ none
      → ltb_ℤ attempt c.max_retries ≡ false
      → gives_up (decide f env c ex attempt s) ≡ true
  unfolding decide decide_by legacy_if gives_up
  decide-gives_up ex attempt s no_policy last =
      subst (λ p. gives_up (decide_by f env p c ex attempt s) ≡ true) (sym no_policy)
        (subst (λ b. gives_up (legacy_if f env b c ex attempt s) ≡ true) (sym last) refl)

  send-stops :
      (attempt : ℤ) (s : State f env)
      → c.retry_policy ≡ none
      → ltb_ℤ attempt c.max_retries ≡ false
      → stops (send f env c call attempt s) ≡ true
  unfolding send
  send-stops attempt s no_policy last =
      conclude-stops attempt _ _ _ (decide-gives_up _ attempt _ no_policy last)

  stops_if :
      (b : Bool) (x y : Step f env)
      → stops x ≡ true
      → stops y ≡ true
      → stops (if b then x else y) ≡ true
  stops_if true x y p q = p
  stops_if false x y p q = q

  pass_breaker-stops :
      (attempt : ℤ) (s : State f env)
      → c.retry_policy ≡ none
      → ltb_ℤ attempt c.max_retries ≡ false
      → stops (pass_breaker f env c call attempt s) ≡ true
  unfolding pass_breaker
  pass_breaker-stops attempt s no_policy last =
      stops_if (Breaker.allow s.circuit_breaker (env.now s.world).0).1 _ _
        (send-stops attempt _ no_policy last) (fail-stops attempt _ _ _ _)

  pass_gauges-stops :
      (attempt : ℤ) (gauges : Option (List Metric)) (s : State f env)
      → c.retry_policy ≡ none
      → ltb_ℤ attempt c.max_retries ≡ false
      → stops (pass_gauges f env c call attempt gauges s) ≡ true
  unfolding pass_gauges
  pass_gauges-stops attempt none s no_policy last = refl
  pass_gauges-stops attempt (some gauges) s no_policy last =
      pass_breaker-stops attempt _ no_policy last

  pass_limiter-stops :
      (attempt : ℤ) (o : Option (LimiterStore × Bool × String)) (s : State f env)
      → c.retry_policy ≡ none
      → ltb_ℤ attempt c.max_retries ≡ false
      → stops (pass_limiter f env c call attempt o s) ≡ true
  unfolding pass_limiter
  pass_limiter-stops attempt none s no_policy last = refl
  pass_limiter-stops attempt (some (store, true, key)) s no_policy last =
      pass_gauges-stops attempt _ _ no_policy last
  pass_limiter-stops attempt (some (store, false, key)) s no_policy last =
      fail-stops attempt _ _ _ _

  attempt_once-stops :
      (attempt : ℤ) (s : State f env)
      → c.retry_policy ≡ none
      → ltb_ℤ attempt c.max_retries ≡ false
      → stops (attempt_once f env c call attempt s) ≡ true
  unfolding attempt_once
  attempt_once-stops attempt s no_policy last = pass_limiter-stops attempt _ _ no_policy last

  -- The fuel is enough, and at most `k` exchanges are made in all.
  abbrev pub Bounded : (env.World → ℕ) → ℕ → Outcome f env × State f env → Type 0
  Bounded sent k out = (is_out_of_fuel f env c call (λ e. ℕ) out.0 ≡ false) × (sent out.1.world ≤ k)

  module _ (sent : env.World → ℕ) (sent-now : (w : env.World) → sent (env.now w).1 ≡ sent w)
      (sent-random : (w : env.World) → sent (env.random w).1 ≡ sent w)
      (sent-sleep : (d : ℤ) (w : env.World) → sent (env.sleep d w) ≡ sent w)
      (sent-execute : (w : env.World)
        → sent (execute_middleware f env c.middleware call.req w).1 ≤ suc (sent w))
      (no_policy : c.retry_policy ≡ none) (m : ℕ) (maximum : c.max_retries ≡ pos m)
      (fits : m < 9223372036854775807) where
    weaken :
        (k l : ℕ) (out : Outcome f env × State f env)
        → k ≤ l
        → Bounded sent k out
        → Bounded sent l out
    weaken k l out h b = (b.0, omega (arith, b.1))

    once :
        (attempt : ℤ) (s : State f env)
        → FineBy f env c call
            (λ e. ℕ)
            sent
            (suc (sent s.world))
            (attempt_once f env c call attempt s)
    once attempt s =
        attempt_once-Fine f env c call (λ e. ℕ) sent sent-now sent-random sent-sleep sent-execute
          (λ policy e. ground (arith, no_policy, e)) attempt s (λ resp err e. 0)

    continue_by-Bounded :
        (a k : ℕ) (rest : State f env → Outcome f env × State f env) (x : Step f env)
        → (stops x ≡ false
            → (s : State f env) → sent s.world ≤ suc k
            → Bounded sent (suc (k + (m - a))) (rest s))
        → FineBy f env c call (λ e. ℕ) sent (suc k) x
        → Bounded sent (suc (k + (m - a))) (continue_by f env c call rest x)
    unfolding continue_by
    continue_by-Bounded a k rest (stop o s) h p = (p.1, omega (arith, p.2))
    continue_by-Bounded a k rest (again s) h p = h refl s p

    before_last :
        (a : ℕ) (s : State f env) → stops (attempt_once f env c call (pos a) s) ≡ false → a < m
    before_last a s h = elim (Bool-cases (ltb_ℤ (pos a) c.max_retries)) [
      | inl e ↦
          let below : ltb_ℤ (pos a) (pos m) ≡ true =
            subst (λ z. ltb_ℤ (pos a) z ≡ true) maximum e in
          ground arith
      | inr e ↦ ground (arith, h, attempt_once-stops (pos a) s no_policy e)
    ]

    next_attempt : (a : ℕ) → a < m → add64 (pos a) (pos 1) ≡ pos (suc a)
    unfolding ◌+ℤ◌
    next_attempt a h =
        let one_more : pos a +ℤ pos 1 ≡ pos (suc a) = ground arith in
        add64_exact (pos a) (pos 1) (subst InRange64 (sym one_more) (omega (arith, fits, h)))
        ∙ one_more

    -- Without a retry policy and with at most 2^63 - 2 retries, the attempts from attempt `a` on end
    -- within `m - a + 1` units of fuel, for any maximum `m` of retries that is at least `a`, and they
    -- execute the middleware and the transport at most `m - a + 1` times, in any measure of the
    -- world that an execution raises by at most one and the clock, the random numbers and the
    -- sleeping leave as it is.
    pub do_with_retry-finishes :
        (n a : ℕ) (s : State f env)
        → a ≤ m
        → m < a + n
        → Bounded sent (suc (sent s.world + (m - a))) (do_with_retry f env c call n (pos a) s)
    unfolding do_with_retry
    do_with_retry-finishes zero a s h e = ground (arith, h, e)
    do_with_retry-finishes (suc n) a s h e =
        continue_by-Bounded a (sent s.world) _ (attempt_once f env c call (pos a) s)
          (λ goes_on s' p.
            let more = before_last a s goes_on in
            subst
              (λ z. Bounded sent (suc (sent s.world + (m - a))) (do_with_retry f env c call n z s'))
              (sym (next_attempt a more))
              (weaken (suc (sent s'.world + (m - suc a))) _
                (do_with_retry f env c call n (pos (suc a)) s') (omega (arith, more, p))
                (do_with_retry-finishes n (suc a) s' (omega (arith, more)) (omega (arith, e)))))
          (once (pos a) s)
