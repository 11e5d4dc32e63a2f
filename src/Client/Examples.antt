-- ===== src/Client/Examples.antt =====
-- The theorems on the client's attempts, with a world that counts the exchanges.
use klayengo.Prelude.{ℕ, suc, ◌≤◌, ◌≡◌, refl, false, String, Option, none, some, [], ◌∷◌, arith}
use klayengo.Prelude.Int.{pos, leb_ℤ}
use klayengo.Prelude.Int64.{saturating_sub64, add64}
use klayengo.Http.{Request, Response}
use klayengo.Errors.{Error, foreign, client_error, wrapped}
use klayengo.Breaker.{
  CircuitBreaker, new_circuit_breaker, with_defaults, record_failure, record_success,
}
use klayengo.Breaker
use klayengo.Limiter
use klayengo.Registry.{limiter_at, update}
use klayengo.Retry.{default_retry_condition}
use klayengo.Backoff.{calculate_backoff}
use klayengo.Backoff.Examples.{whole, settings}
use klayengo.Client.{
  Env, get_endpoint, create_client_error, Config, State, Call, Outcome, returned, fault,
  limiter_allow, execute_middleware, Middleware,
}
use klayengo.Client.Middleware.{execute_middleware-chain}
use klayengo.Validation.Examples.{print_none, modest, modest-valid}
use klayengo.Client.Attempts.Validated.{do_with_retry-validated}
use klayengo.Client.Attempts.{do_with_retry}
use klayengo.Client.Attempts.Ends.{Reported}
use klayengo.Client.Attempts.Errors.{Last, Gives, do_with_retry-Reported}
use klayengo.Options.Examples.{kinds, start}
use klayengo.Client.Attempts.Unregistered.{registry_for, do_with_retry-unregistered}
use klayengo.Client.Attempts.Fuel.{Bounded, do_with_retry-finishes}

-- A world that counts the exchanges, with a clock that stands still and a network that is down.
abbrev down : Env whole
down = record {
  World = ℕ;
  now = λ w. (pos 0, w);
  random = λ w. (pos 0, w);
  sleep = λ d w. w;
  transport = λ req w. ((none, some (foreign 7)), suc w);
}

-- The inner middleware turns an error into a response with the status 204.
abbrev observe : Middleware whole down
observe req next w = next (record req { method = "HEAD" }) w

abbrev no_content : Response
no_content = record { status_code = pos 204; header = []; body = none; request_method = none }

abbrev calm : Middleware whole down
calm req next w =
    let (ex, w') = next req w in
    ((some (record no_content { request_method = some req.method }), none), w')

abbrev two_retries : Config whole down
two_retries = record {
  max_retries = pos 2;
  settings = settings;
  retry_condition = default_retry_condition;
  retry_policy = none;
  middleware = [];
  has_metrics = false;
}

abbrev fresh : State whole down
fresh = record {
  circuit_breaker =
      new_circuit_breaker
        (record { failure_threshold = pos 0; recovery_timeout = pos 0; success_threshold = pos 0 });
  limiters =
      λ p. record { max_tokens = pos 0; tokens = pos 0; refill_rate = pos 0; last_refill = pos 0 };
  rate_limiter = none;
  limiter_registry = none;
  retry_budget = none;
  metrics = [];
  world = 0;
}

abbrev ask : Request
ask = record {
  method = "GET";
  url = some (record { host = "h"; path = "/"; text = "http://h/" });
  host = "h";
  header = [];
  cache_control = none;
}

abbrev asking : Call whole down
asking = record { req = ask; request_id = "r1"; start_time = pos 0 }

-- The outcome of the call with three units of fuel.
abbrev result : Outcome whole down × State whole down
result = do_with_retry whole down two_retries asking 3 (pos 0) fresh

three_exchanges : result.1.world ≡ 3
unfolding do_with_retry execute_middleware new_circuit_breaker with_defaults record_failure
    Breaker.allow default_retry_condition saturating_sub64 add64 calculate_backoff
    klayengo.Client.decide klayengo.Client.record_metric klayengo.Client.fail
three_exchanges = refl

one_exchange :
    (w : ℕ) → (execute_middleware whole down two_retries.middleware asking.req w).1 ≤ suc w
unfolding execute_middleware
one_exchange w = omega arith

-- The outer middleware is the first: the inner one sees the method that it has set.
execute_middleware-chain_example :
    execute_middleware whole down (observe ∷ calm ∷ []) ask 4
    ≡ ((some (record no_content { request_method = some "HEAD" }), none), 5)
execute_middleware-chain_example = execute_middleware-chain whole down (observe ∷ calm ∷ []) ask 4

do_with_retry-finishes_example : Bounded whole down two_retries asking (λ w. w) 3 result
do_with_retry-finishes_example =
    do_with_retry-finishes whole down two_retries asking (λ w. w) (λ w. refl) (λ w. refl)
      (λ d w. refl) one_exchange refl 2 refl (omega arith) 3 0 fresh (omega arith) (omega arith)

-- What the third attempt reports.
abbrev down_error : Error
down_error =
    client_error
      (record {
        type_name = "NetworkError";
        message = "network request failed";
        request_id = "r1";
        method = "GET";
        url = "http://h/";
        attempt = pos 2;
        max_retries = pos 2;
        timestamp = pos 0;
        duration = pos 0;
        status_code = pos 0;
        endpoint = "h/";
      })
      (wrapped "network request failed" (foreign 7))

gives_down_error : result.0 ≡ returned none (some down_error)
unfolding do_with_retry execute_middleware new_circuit_breaker with_defaults record_failure
    Breaker.allow default_retry_condition saturating_sub64 add64 calculate_backoff
    klayengo.Client.decide klayengo.Client.record_metric klayengo.Client.fail get_endpoint
    create_client_error
gives_down_error = refl

abbrev nothing : Option Response
nothing = none

do_with_retry-Reported_example :
    (nothing ≡ none)
    × ((last : Last whole down two_retries asking
          (pos 0)
          fresh
          (returned nothing (some down_error)))
        × Reported (Gives whole down two_retries asking last.start) "r1" ask down_error)
do_with_retry-Reported_example =
    do_with_retry-Reported whole down two_retries asking 3 (pos 0) fresh none down_error
      gives_down_error

do_with_retry-validated_example :
    Bounded whole down two_retries asking
      (λ w. w)
      101
      (do_with_retry whole down two_retries asking 101 (pos 0) fresh)
do_with_retry-validated_example =
    do_with_retry-validated whole leb_ℤ print_none down two_retries asking (λ w. w) (λ w. refl)
      (λ w. refl) (λ d w. refl) one_exchange modest modest-valid refl refl fresh

-- The state of a client with a limiter for the host "a" only, and no rate limiter.
abbrev by_host : Request → String
by_host req = req.host

abbrev limited : State whole down
limited = record fresh {
  limiter_registry = registry_for whole kinds "a" (limiter_at 2) by_host start;
}

-- The request has the host "h".
do_with_retry-unregistered_example :
    (do_with_retry whole down two_retries asking 1 (pos 0) limited ≡ (fault, limited))
    × (limiter_allow whole down
          (registry_for whole kinds "a"
            (limiter_at 2)
            by_host
            (record start { rate_limiter = some 3 }))
          none
          limited.limiters
          ask
          (pos 9)
        ≡ (let (bucket, granted) = Limiter.allow (limited.limiters 3) (pos 9) in
            some (update limited.limiters 3 bucket, granted, "default")))
do_with_retry-unregistered_example =
    do_with_retry-unregistered whole kinds "a" (limiter_at 2) by_host down two_retries asking start
      0 (pos 0) limited 3 (pos 9) refl refl refl
