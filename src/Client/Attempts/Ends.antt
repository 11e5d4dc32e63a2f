-- ===== src/Client/Attempts/Ends.antt =====
-- How `doWithRetry` of client.go ends: its errors, the exchanges it makes and its recursion.
use klayengo.Prelude.{
  List, ℕ, suc, ◌≤◌, ◌≡◌, refl, ◌⊎◌, ◌∙◌, inl, inr, sym, subst, Bool, true, false, if◌then◌else◌,
  String, Option, none, some, arith,
}
use klayengo.Prelude.Int.{ℤ, pos, ltb_ℤ}
use klayengo.Http.{Request, Response, Url}
use klayengo.Errors.{
  ErrorInfo, circuit_open, rate_limited, retry_budget_exceeded, Error, sentinel, client_error,
  wrapped, error_type_network, error_type_rate_limit, error_type_circuit_open,
  error_type_retry_budget_exceeded,
}
use klayengo.Breaker
use klayengo.Registry.{LimiterStore}
use klayengo.Budget.{RetryBudget}
use klayengo.Budget
use klayengo.Backoff.{Float}
use klayengo.Client.{
  Exchange, Env, Metric, execute_middleware, Config, State, Outcome, returned, fault, out_of_fuel,
  Step, stop, again, record_metric, Call, create_client_error, client_error_at, failed_with, fail,
  Decision, give_up, retry_after, broken,
}
use klayengo.Client.Attempts.Decisions.{After, decide-After}
use klayengo.Client.Attempts.{
  has_failed, schedule, charge, deliver, conclude, account, announce, send, pass_breaker,
  pass_gauges, pass_limiter, attempt_once,
}

-- The type of an error goes with its cause, which for a network error is one that `Gave` admits.
abbrev pub KindOf : (Error → Type 0) → String → Error → Type 0
KindOf Gave kind cause =
    ((kind ≡ error_type_network) × Gave cause)
    ⊎ ((kind ≡ error_type_rate_limit) × (cause ≡ sentinel rate_limited))
    ⊎ ((kind ≡ error_type_circuit_open) × (cause ≡ sentinel circuit_open))
    ⊎ ((kind ≡ error_type_retry_budget_exceeded) × (cause ≡ sentinel retry_budget_exceeded))

-- A client error of the call, of one of the four types.
abbrev pub Reported : (Error → Type 0) → String → Request → Error → Type 0
Reported Gave request_id req e =
    (info : ErrorInfo) × (message : String) × (cause : Error) × (e
      ≡ client_error info (wrapped message cause))
    × (info.request_id ≡ request_id)
    × (info.method ≡ req.method)
    × KindOf Gave info.type_name cause

module _ (f : Float) (env : Env f) (c : Config f env) (call : Call f env)
    (Gave : Error → Type 0) where
  -- A good end: an error is a client error of the call.
  abbrev pub Ends : Outcome f env → Type 0
  Ends (returned r none) = ℕ
  Ends (returned r (some e)) = (r ≡ none) × Reported Gave call.request_id call.req e
  Ends fault = ℕ
  Ends out_of_fuel = ℕ

  abbrev pub is_out_of_fuel : Outcome f env → Bool
  is_out_of_fuel (returned r e) = false
  is_out_of_fuel fault = false
  is_out_of_fuel out_of_fuel = true

  -- A step after at most `k` exchanges in all, with a good end.
  abbrev pub FineBy : (env.World → ℕ) → ℕ → Step f env → Type 0
  FineBy sent k (stop o s) = Ends o × (is_out_of_fuel o ≡ false) × (sent s.world ≤ k)
  FineBy sent k (again s) = sent s.world ≤ k

module _ (f : Float) (env : Env f) (c : Config f env) (call : Call f env) (Gave : Error → Type 0)
    (sent : env.World → ℕ) (sent-now : (w : env.World) → sent (env.now w).1 ≡ sent w)
    (sent-random : (w : env.World) → sent (env.random w).1 ≡ sent w)
    (sent-sleep : (d : ℤ) (w : env.World) → sent (env.sleep d w) ≡ sent w)
    (sent-execute : (w : env.World)
      → sent (execute_middleware f env c.middleware call.req w).1 ≤ suc (sent w))
    (sent-policy : (policy : Option Response
        → Option Error
        → ℤ
        → env.World
        → Option (ℤ × Bool) × env.World)
      → c.retry_policy ≡ some policy
      → (resp : Option Response) (err : Option Error) (attempt : ℤ) (w : env.World)
      → sent (policy resp err attempt w).1 ≡ sent w) where
  abbrev Fine : ℕ → Step f env → Type 0
  Fine = FineBy f env c call Gave sent

  -- An error of the exchange made from `w` is admitted.
  abbrev pub From : env.World → Type 0
  From w =
      (resp : Option Response) (err : Error)
      → (execute_middleware f env c.middleware call.req w).0 ≡ (resp, some err)
      → Gave err

  if-Fine :
      (b : Bool) (x y : Step f env) (k : ℕ) → Fine k x → Fine k y → Fine k (if b then x else y)
  if-Fine true x y k p q = p
  if-Fine false x y k p q = q

  sent_if :
      (b : Bool) (x y : State f env) (k : ℕ)
      → sent x.world ≡ k
      → sent y.world ≡ k
      → sent (if b then x else y).world ≡ k
  sent_if true x y k p q = p
  sent_if false x y k p q = q

  sent-record_metric :
      (m : Metric) (s : State f env) → sent (record_metric f env c m s).world ≡ sent s.world
  unfolding record_metric
  sent-record_metric m s = sent_if c.has_metrics _ s (sent s.world) refl refl

  failed_with-Fine :
      (url : Option Url) (attempt duration timestamp : ℤ) (kind message : String) (cause : Error)
      (s : State f env) (k : ℕ)
      → KindOf Gave kind cause
      → sent s.world ≤ k
      → Fine k (
          failed_with f env
            (client_error_at f env url c kind message cause call.request_id call.req attempt
              duration timestamp)
            s)
  unfolding failed_with client_error_at
  failed_with-Fine none attempt duration timestamp kind message cause s k kd h = (0, refl, h)
  failed_with-Fine (some u) attempt duration timestamp kind message cause s k kd h =
      ((refl, (_, message, cause, refl, refl, refl, kd)), refl, h)

  fail-Fine :
      (attempt : ℤ) (kind message : String) (cause : Error) (s : State f env) (k : ℕ)
      → KindOf Gave kind cause
      → sent s.world ≤ k
      → Fine k (fail f env c call attempt kind message cause s)
  unfolding fail create_client_error
  fail-Fine attempt kind message cause s k kd h =
      failed_with-Fine call.req.url attempt _ _ kind message cause _ k kd
        (omega (arith, sent-now s.world, sent-now (env.now s.world).1))

  schedule-Fine :
      (delay : ℤ) (s : State f env) (k : ℕ)
      → sent s.world ≤ k
      → Fine k (schedule f env c call delay s)
  unfolding schedule
  schedule-Fine delay s k h = omega (arith, sent-sleep delay s.world)

  charge-Fine :
      (attempt delay : ℤ) (rb : Option RetryBudget) (s : State f env) (k : ℕ)
      → sent s.world ≤ k
      → Fine k (charge f env c call attempt delay rb s)
  unfolding charge
  charge-Fine attempt delay none s k h = schedule-Fine delay s k h
  charge-Fine attempt delay (some rb) s k h =
      let charged = record s {
        retry_budget = some (Budget.allow rb (env.now s.world).0).0;
        world = (env.now s.world).1;
      } in
      if-Fine (Budget.allow rb (env.now s.world).0).1 _ _ k
        (schedule-Fine delay charged k (omega (arith, sent-now s.world)))
        (fail-Fine attempt _ _ _ _ k (inr (inr (inr (refl, refl))))
          (omega (arith, sent-now s.world, sent-record_metric _ charged)))

  deliver-Fine :
      (attempt : ℤ) (ex : Exchange) (s : State f env) (k : ℕ)
      → ((resp : Option Response) (err : Error) → ex ≡ (resp, some err) → Gave err)
      → sent s.world ≤ k
      → Fine k (deliver f env c call attempt ex s)
  unfolding deliver
  deliver-Fine attempt (resp, none) s k gave h = (0, refl, h)
  deliver-Fine attempt (resp, some err) s k gave h =
      fail-Fine attempt _ _ err s k (inl (refl, gave resp err refl)) h

  conclude-Fine :
      (attempt : ℤ) (ex : Exchange) (d : Decision f env) (s : State f env) (k : ℕ)
      → ((resp : Option Response) (err : Error) → ex ≡ (resp, some err) → Gave err)
      → After f env c sent sent-random sent-policy k d
      → sent s.world ≤ k
      → Fine k (conclude f env c call attempt ex d s)
  unfolding conclude
  conclude-Fine attempt ex broken s k gave a h = (0, refl, h)
  conclude-Fine attempt ex (retry_after delay s') s k gave a h =
      charge-Fine attempt delay s'.retry_budget s' k a
  conclude-Fine attempt ex (give_up s') s k gave a h = deliver-Fine attempt ex s' k gave a

  sent-announce :
      (attempt : ℤ) (s : State f env) → sent (announce f env c call attempt s).world ≡ sent s.world
  unfolding announce
  sent-announce attempt s = sent_if (ltb_ℤ (pos 0) attempt) _ s _ (sent-record_metric _ s) refl

  either-world :
      (b : Bool) (x y : State f env) (w : env.World)
      → x.world ≡ w
      → y.world ≡ w
      → (if b then x else y).world ≡ w
  either-world true x y w p q = p
  either-world false x y w p q = q

  announce-world :
      (attempt : ℤ) (s : State f env) → (announce f env c call attempt s).world ≡ s.world
  unfolding announce record_metric
  announce-world attempt s =
      either-world (ltb_ℤ (pos 0) attempt) _ s s.world
        (either-world c.has_metrics _ s s.world refl refl) refl

  sent-account :
      (ex : Exchange) (s : State f env) → sent (account f env c call ex s).world ≡ sent s.world
  unfolding account
  sent-account ex s =
      sent_if (has_failed ex) _ _ _
        (sent-record_metric _ _ ∙ sent-record_metric _ _ ∙ sent-now s.world)
        (sent-record_metric _ _)

  send-Fine :
      (attempt : ℤ) (s : State f env) (k : ℕ)
      → From s.world
      → suc (sent s.world) ≤ k
      → Fine k (send f env c call attempt s)
  unfolding send
  send-Fine attempt s k gave h =
      let announced = announce f env c call attempt s in
      let (ex, w) = execute_middleware f env c.middleware call.req announced.world in
      let heard = account f env c call ex (record announced { world = w }) in
      let bound : sent heard.world ≤ k = omega (
        arith,
        sent-account ex (record announced { world = w }),
        sent-execute announced.world,
        sent-announce attempt s,
      ) in
      conclude-Fine attempt ex _ heard k (subst From (sym (announce-world attempt s)) gave)
        (decide-After f env c sent sent-random sent-policy ex attempt heard k bound) bound

  pass_breaker-Fine :
      (attempt : ℤ) (s : State f env) (k : ℕ)
      → From (env.now s.world).1
      → suc (sent s.world) ≤ k
      → Fine k (pass_breaker f env c call attempt s)
  unfolding pass_breaker
  pass_breaker-Fine attempt s k gave h =
      let asked = record s {
        circuit_breaker = (Breaker.allow s.circuit_breaker (env.now s.world).0).0;
        world = (env.now s.world).1;
      } in
      if-Fine (Breaker.allow s.circuit_breaker (env.now s.world).0).1 _ _ k
        (send-Fine attempt asked k gave (omega (arith, sent-now s.world)))
        (fail-Fine attempt _ _ _ _ k (inr (inr (inl (refl, refl))))
          (omega (arith, sent-now s.world, sent-record_metric _ asked)))

  pass_gauges-Fine :
      (attempt : ℤ) (gauges : Option (List Metric)) (s : State f env) (k : ℕ)
      → From (env.now s.world).1
      → suc (sent s.world) ≤ k
      → Fine k (pass_gauges f env c call attempt gauges s)
  unfolding pass_gauges
  pass_gauges-Fine attempt none s k gave h = (0, refl, omega (arith, h))
  pass_gauges-Fine attempt (some gauges) s k gave h = pass_breaker-Fine attempt _ k gave h

  pass_limiter-Fine :
      (attempt : ℤ) (o : Option (LimiterStore × Bool × String)) (s : State f env) (k : ℕ)
      → From (env.now s.world).1
      → suc (sent s.world) ≤ k
      → Fine k (pass_limiter f env c call attempt o s)
  unfolding pass_limiter
  pass_limiter-Fine attempt none s k gave h = (0, refl, omega (arith, h))
  pass_limiter-Fine attempt (some (store, true, key)) s k gave h =
      pass_gauges-Fine attempt _ _ k gave h
  pass_limiter-Fine attempt (some (store, false, key)) s k gave h =
      let refused = record s { limiters = store } in
      fail-Fine attempt _ _ _ _ k (inr (inl (refl, refl))) (
        omega (
          arith,
          sent-record_metric _ refused,
          sent-record_metric _ (record_metric f env c _ refused),
        ))

  pub attempt_once-Fine :
      (attempt : ℤ) (s : State f env)
      → From (env.now (env.now s.world).1).1
      → FineBy f env c call Gave sent (suc (sent s.world)) (attempt_once f env c call attempt s)
  unfolding attempt_once
  attempt_once-Fine attempt s gave =
      pass_limiter-Fine attempt _ _ (suc (sent s.world)) gave (omega (arith, sent-now s.world))
