-- ===== src/Options/Timeouts.antt =====
-- The timeout of the http.Client that a client sends with.
use klayengo.Prelude.{
  ℕ, Bool, true, false, String, Option, none, some, Option-cases, inl, inr, arith, refl, subst,
  List, [], ◌∷◌, map, ◌≡◌,
}
use klayengo.Prelude.Int.{ℤ, pos, eqb_ℤ, ◌<ℤ◌, ◌≤ℤ◌}
use klayengo.Registry.{LimiterStore}
use klayengo.Backoff.{Float}
use klayengo.Validation.{validate_configuration}
use klayengo.Options.{
  Kinds, DebugConfig, Client, apply_all, default_client, update_backoff_calculator, settings_of,
  finish, new_client,
}
use klayengo.Validation.Sound.{Within, validate_configuration-Within}
use klayengo.Options.With
use klayengo.Options.With.{with_timeout, with_http_client, set_timeout, use_http_client, edit_debug}
use klayengo.Options.Calls.{
  OptionCall, option_of, call_max_retries, call_initial_backoff, call_max_backoff,
  call_backoff_multiplier, call_jitter, call_backoff_strategy, call_rate_limiter, call_limiter_for,
  call_limiter_key_func, call_cache, call_custom_cache, call_cache_key_func, call_cache_condition,
  call_cache_provider, call_cache_mode, call_timeout, call_retry_condition, call_retry_policy,
  call_retry_budget, call_circuit_breaker, call_middleware, call_http_client, call_metrics,
  call_metrics_collector, call_debug, call_debug_config, call_logger, call_simple_logger,
  call_request_id_generator, call_deduplication, call_deduplication_key_func,
  call_deduplication_condition, call_single_flight_enabled,
}

module _ (f : Float) (k : Kinds) where
  -- A timeout that is not zero is that of the http.Client.
  abbrev pub IsTimed : Client f k → Type 0
  IsTimed c =
      (p : ℕ)
      → c.http_client ≡ some p
      → eqb_ℤ c.timeout (pos 0) ≡ false
      → c.http_timeouts p ≡ c.timeout

  -- What an option leaves, if it does not fail.
  abbrev IsTimedAfter : Option (Client f k) → Type 0
  IsTimedAfter none = Unit
  IsTimedAfter (some c) = IsTimed c

  edit_debug-IsTimed :
      (edit : DebugConfig f k → DebugConfig f k) (o : Option ℕ) (c : Client f k)
      → IsTimed c
      → IsTimed (edit_debug f k edit o c)
  unfolding edit_debug
  edit_debug-IsTimed edit none c timed = timed
  edit_debug-IsTimed edit (some p) c timed = timed

  set_timeout-IsTimed :
      (d : ℤ) (o : Option ℕ) (c : Client f k) → o ≡ c.http_client → IsTimed (set_timeout f k d o c)
  unfolding set_timeout
  set_timeout-IsTimed d none c is p h nonzero = absurd (cc (is, h))
  set_timeout-IsTimed d (some q) c is p h nonzero =
      let same : q ≡ p = cc (is, h) in ground (arith, same)

  use_http_client-IsTimed :
      (zero : Bool) (o : Option ℕ) (c : Client f k)
      → zero ≡ eqb_ℤ c.timeout (pos 0)
      → IsTimedAfter (use_http_client f k zero o c)
  unfolding use_http_client
  use_http_client-IsTimed true o c is = λ p h nonzero. absurd (cc (is, nonzero))
  use_http_client-IsTimed false none c is = tt
  use_http_client-IsTimed false (some q) c is =
      λ p h nonzero. let same : q ≡ p = cc (h) in ground (arith, same)

  option_of-IsTimed :
      (call : OptionCall f k) (c : Client f k) → IsTimed c → IsTimedAfter (option_of f k call c)
  unfolding option_of With.with_timeout With.with_http_client With.with_max_retries
      With.with_initial_backoff With.with_max_backoff With.with_backoff_multiplier With.with_jitter
      With.with_backoff_strategy With.with_rate_limiter With.with_limiter_for
      With.with_limiter_key_func With.with_cache With.with_custom_cache With.with_cache_key_func
      With.with_cache_condition With.with_cache_provider With.with_cache_mode
      With.with_retry_condition With.with_retry_policy With.with_retry_budget
      With.with_circuit_breaker With.with_middleware With.with_metrics With.with_metrics_collector
      With.with_debug With.with_debug_config With.with_logger With.with_simple_logger
      With.with_request_id_generator With.with_deduplication With.with_deduplication_key_func
      With.with_deduplication_condition With.with_single_flight_enabled
  option_of-IsTimed (call_max_retries n) c timed = timed
  option_of-IsTimed (call_initial_backoff d) c timed = timed
  option_of-IsTimed (call_max_backoff d) c timed = timed
  option_of-IsTimed (call_backoff_multiplier x) c timed = timed
  option_of-IsTimed (call_jitter x) c timed = timed
  option_of-IsTimed (call_backoff_strategy s) c timed = timed
  option_of-IsTimed (call_rate_limiter max_tokens refill_rate now) c timed = timed
  option_of-IsTimed (call_limiter_for key limiter) c timed = timed
  option_of-IsTimed (call_limiter_key_func key_func) c timed = timed
  option_of-IsTimed (call_cache ttl) c timed = timed
  option_of-IsTimed (call_custom_cache cache ttl) c timed = timed
  option_of-IsTimed (call_cache_key_func fn) c timed = timed
  option_of-IsTimed (call_cache_condition fn) c timed = timed
  option_of-IsTimed (call_cache_provider provider) c timed = timed
  option_of-IsTimed (call_cache_mode mode) c timed = timed
  option_of-IsTimed (call_timeout d) c timed = set_timeout-IsTimed d c.http_client c refl
  option_of-IsTimed (call_retry_condition fn) c timed = timed
  option_of-IsTimed (call_retry_policy policy) c timed = timed
  option_of-IsTimed (call_retry_budget max_retries per_window now) c timed = timed
  option_of-IsTimed (call_circuit_breaker config) c timed = timed
  option_of-IsTimed (call_middleware ms) c timed = timed
  option_of-IsTimed (call_http_client client) c timed =
      use_http_client-IsTimed (eqb_ℤ c.timeout (pos 0)) client c refl
  option_of-IsTimed call_metrics c timed = timed
  option_of-IsTimed (call_metrics_collector collector) c timed = timed
  option_of-IsTimed call_debug c timed =
      edit_debug-IsTimed (λ d. record d { enabled = true }) c.debug c timed
  option_of-IsTimed (call_debug_config config) c timed = timed
  option_of-IsTimed (call_logger logger) c timed = timed
  option_of-IsTimed call_simple_logger c timed =
      edit_debug-IsTimed (λ d. record d { enabled = true }) c.debug c timed
  option_of-IsTimed (call_request_id_generator gen) c timed =
      edit_debug-IsTimed (λ d. record d { request_id_gen = gen }) c.debug c timed
  option_of-IsTimed call_deduplication c timed = timed
  option_of-IsTimed (call_deduplication_key_func fn) c timed = timed
  option_of-IsTimed (call_deduplication_condition fn) c timed = timed
  option_of-IsTimed (call_single_flight_enabled enabled) c timed = timed

  apply_all-IsTimed :
      (calls : List (OptionCall f k)) (o : Option (Client f k))
      → IsTimedAfter o
      → IsTimedAfter (apply_all f k o (map (option_of f k) calls))
  unfolding apply_all
  apply_all-IsTimed [] o timed = timed
  apply_all-IsTimed (call ∷ calls) none timed = apply_all-IsTimed calls none timed
  apply_all-IsTimed (call ∷ calls) (some c) timed =
      apply_all-IsTimed calls (option_of f k call c) (option_of-IsTimed call c timed)

  -- What can be said of the http.Client of a client without a validation error.
  pub record HasTimeout (c : Client f k) : Type 0 where
    pub http : ℕ
    pub present : c.http_client ≡ some http
    pub enforced : c.http_timeouts http ≡ c.timeout
    pub positive : pos 0 <ℤ c.timeout
    pub at_most : c.timeout ≤ℤ pos 600_000_000_000

  default_client-IsTimed :
      (tenth : f.float64) (limiters : LimiterStore) (debug_configs : ℕ → DebugConfig f k)
      (http_timeouts : ℕ → ℤ) (next : ℕ)
      → IsTimed (default_client f k tenth limiters debug_configs http_timeouts next)
  default_client-IsTimed tenth limiters debug_configs http_timeouts next p h nonzero =
      let same : next ≡ p = cc (h) in ground (arith, same)

  -- A validated client with the right timeout in its http.Client.
  settings_of-HasTimeout :
      (c : Client f k) → Within f (settings_of f k c) → IsTimed c → HasTimeout c
  unfolding settings_of
  settings_of-HasTimeout c within timed = elim (Option-cases c.http_client) [
    | inl h ↦ absurd (cc (h, within.http_client))
    | inr (p, h) ↦ record {
      http = p;
      present = h;
      enforced = timed p h (ground (arith, within.some_timeout));
      positive = within.some_timeout;
      at_most = within.most_timeout;
    }
  ]

  finish-HasTimeout :
      (le : f.float64 → f.float64 → Bool) (print_int : ℤ → String) (o : Option (Client f k))
      → IsTimedAfter o
      → (c : Client f k) → finish f k le print_int o ≡ some (c, [])
      → HasTimeout c
  unfolding finish update_backoff_calculator
  finish-HasTimeout le print_int none timed c h = absurd (cc (h))
  finish-HasTimeout le print_int (some d) timed c h =
      let c' = update_backoff_calculator f k d in
      let same : c' ≡ c = cc (h) in
      let quiet : validate_configuration f le print_int (settings_of f k c') ≡ [] = cc (h) in
      subst HasTimeout same (
        settings_of-HasTimeout c'
          (validate_configuration-Within f le print_int (settings_of f k c') quiet) timed)

  -- However the package's options are combined, and whatever http.Clients their callers hand in and
  -- share: a client that `New` returns without a validation error sends with an http.Client whose
  -- timeout is the client's own, positive and at most ten minutes.
  pub new_client-HasTimeout :
      (le : f.float64 → f.float64 → Bool) (print_int : ℤ → String) (tenth : f.float64)
      (limiters : LimiterStore) (debug_configs : ℕ → DebugConfig f k) (http_timeouts : ℕ → ℤ)
      (next : ℕ) (calls : List (OptionCall f k)) (c : Client f k)
      → new_client f k le print_int tenth limiters debug_configs http_timeouts next
          (map (option_of f k) calls)
        ≡ some (c, [])
      → HasTimeout c
  unfolding new_client
  new_client-HasTimeout le print_int tenth limiters debug_configs http_timeouts next calls c h =
      let made = default_client f k tenth limiters debug_configs http_timeouts next in
      finish-HasTimeout le print_int (apply_all f k (some made) (map (option_of f k) calls))
        (apply_all-IsTimed calls (some made)
          (default_client-IsTimed tenth limiters debug_configs http_timeouts next))
        c h
