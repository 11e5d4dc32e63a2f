-- ===== src/Backoff.antt =====
-- The backoff calculators of internal/backoff/strategy.go and calculator.go, and the copies of
-- their formulas in client.go and retry_policy.go. float64 is a parameter: its operations, and
-- the conversions from and to a duration; the random number is an argument.
pub mod Bounds
pub mod Examples
use klayengo.Prelude.{ℕ, zero, suc, Bool, true, false, ◌||◌, if◌then◌else◌, Option, none, some}
use klayengo.Prelude.Int.{ℤ, pos, pos_part, ltb_ℤ, leb_ℤ}
use klayengo.Prelude.Int64.{add64}

-- A `BackoffStrategy` is an int, of which two values are named (types.go).
pub data BackoffStrategy : Type 0 where
  exponential_jitter decorrelated_jitter : BackoffStrategy
  other_strategy : ℤ → BackoffStrategy

-- The implementations of the interface `Strategy`; a `Calculator` holds one.
pub data Strategy : Type 0 where
  exponential_jitter_strategy decorrelated_jitter_strategy : Strategy

pub record Float : Type 1 where
  pub float64 : Type 0
  pub of_int : ℤ → float64
  pub to_duration : float64 → ℤ
  pub add : float64 → float64 → float64
  pub sub : float64 → float64 → float64
  pub mul : float64 → float64 → float64
  pub lt : float64 → float64 → Bool

module _ (f : Float) where
  open f use {float64, of_int, to_duration, add, sub, mul, lt}

  -- The loop of `pow`, with the rounds left.
  pow_from : ℕ → float64 → float64 → float64
  pow_from zero base result = result
  pow_from (suc n) base result = pow_from n base (mul result base)

  unfoldable pub pow : float64 → ℤ → float64
  unfolding pow_from
  pow base exponent = pow_from (pos_part exponent) base (of_int (pos 1))

  unfoldable pub clamp_jitter : float64 → float64
  clamp_jitter jitter =
      if lt jitter (of_int (pos 0))
      then of_int (pos 0)
      else if lt (of_int (pos 1)) jitter
      then of_int (pos 1)
      else jitter

  unfoldable pub clamp_attempt : ℤ → ℤ
  clamp_attempt attempt =
      let a = if ltb_ℤ attempt (pos 0) then pos 0 else attempt in
      if ltb_ℤ (pos 30) a then pos 30 else a

  cap : ℤ → ℤ → ℤ
  cap max_backoff backoff =
      if ltb_ℤ backoff (pos 0) || ltb_ℤ max_backoff backoff then max_backoff else backoff

  -- The part after the clamped jitter is known to be positive.
  add_jitter : ℤ → ℤ → ℤ → ℤ
  add_jitter backoff amount max_backoff =
      if ltb_ℤ max_backoff (add64 backoff amount) then max_backoff else add64 backoff amount

  -- `ExponentialJitterStrategy.Calculate`; `r` is what `rand.Float64` gives.
  unfoldable pub calculate_exponential : ℤ → ℤ → ℤ → float64 → float64 → float64 → ℤ
  unfolding clamp_attempt pow cap clamp_jitter add_jitter
  calculate_exponential attempt initial_backoff max_backoff multiplier jitter r =
      let power = pow multiplier (clamp_attempt attempt) in
      let backoff = cap max_backoff (to_duration (mul (of_int initial_backoff) power)) in
      let j = clamp_jitter jitter in
      if lt (of_int (pos 0)) j
      then add_jitter backoff (to_duration (mul (mul (of_int backoff) j) r)) max_backoff
      else backoff

  -- `upper`, kept between the base and the maximum.
  limit_upper : float64 → float64 → float64 → float64
  limit_upper base max_float upper =
      let u = if lt max_float upper || lt upper (of_int (pos 0)) then max_float else upper in
      if lt u base then base else u

  -- `DecorrelatedJitterStrategy.Calculate`.
  unfoldable pub calculate_decorrelated : ℤ → ℤ → ℤ → float64 → ℤ
  unfolding pow limit_upper cap
  calculate_decorrelated attempt initial_backoff max_backoff r =
      if leb_ℤ attempt (pos 0)
      then initial_backoff
      else (let a = if ltb_ℤ (pos 10) attempt then pos 10 else attempt in
          let base = of_int initial_backoff in
          let upper = limit_upper base (of_int max_backoff) (mul base (pow (of_int (pos 3)) a)) in
          cap max_backoff (to_duration (add base (mul r (sub upper base)))))

  -- `Calculator.Calculate`, by the strategy that the calculator holds.
  unfoldable pub calculate : Strategy → ℤ → ℤ → ℤ → float64 → float64 → float64 → ℤ
  unfolding calculate_exponential calculate_decorrelated
  calculate exponential_jitter_strategy attempt initial_backoff max_backoff multiplier jitter r =
      calculate_exponential attempt initial_backoff max_backoff multiplier jitter r
  calculate decorrelated_jitter_strategy attempt initial_backoff max_backoff multiplier jitter r =
      calculate_decorrelated attempt initial_backoff max_backoff r

-- `GetExponentialJitterCalculator` or `GetDecorrelatedJitterCalculator`, chosen by the strategy.
unfoldable pub calculator_for : BackoffStrategy → Strategy
calculator_for exponential_jitter = exponential_jitter_strategy
calculator_for decorrelated_jitter = decorrelated_jitter_strategy
calculator_for (other_strategy n) = exponential_jitter_strategy

-- The settings that `Client` and `DefaultRetryPolicy` share. `calculator` may be nil.
pub record Settings (f : Float) : Type 0 where
  pub initial_backoff : ℤ
  pub max_backoff : ℤ
  pub multiplier : f.float64
  pub jitter : f.float64
  pub strategy : BackoffStrategy
  pub calculator : Option Strategy

module _ (f : Float) where
  open f use {float64, of_int, to_duration, add, sub, mul, lt}

  -- `calculateExponentialBackoff` of `Client` and of `DefaultRetryPolicy`.
  fallback_exponential : Settings f → ℤ → float64 → ℤ
  unfolding clamp_attempt pow cap add_jitter
  fallback_exponential s attempt r =
      let power = pow f s.multiplier (clamp_attempt f attempt) in
      let backoff = cap f s.max_backoff (to_duration (mul (of_int s.initial_backoff) power)) in
      let low = if lt s.jitter (of_int (pos 0)) then of_int (pos 0) else s.jitter in
      let j = if lt (of_int (pos 1)) low then of_int (pos 1) else low in
      if lt (of_int (pos 0)) j
      then add_jitter f backoff (to_duration (mul (mul (of_int backoff) j) r)) s.max_backoff
      else backoff

  -- `calculateDecorrelatedBackoff` of both.
  fallback_decorrelated : Settings f → ℤ → float64 → ℤ
  unfolding pow limit_upper cap
  fallback_decorrelated s attempt r =
      if leb_ℤ attempt (pos 0)
      then s.initial_backoff
      else (let a = if ltb_ℤ (pos 10) attempt then pos 10 else attempt in
          let base = of_int s.initial_backoff in
          let upper =
            limit_upper f base (of_int s.max_backoff) (mul base (pow f (of_int (pos 3)) a)) in
          cap f s.max_backoff (to_duration (add base (mul r (sub upper base)))))

  -- The `switch` for a nil calculator.
  fallback : BackoffStrategy → Settings f → ℤ → float64 → ℤ
  unfolding fallback_exponential fallback_decorrelated
  fallback exponential_jitter s attempt r = fallback_exponential s attempt r
  fallback decorrelated_jitter s attempt r = fallback_decorrelated s attempt r
  fallback (other_strategy n) s attempt r = fallback_exponential s attempt r

  backoff_by : Option Strategy → Settings f → ℤ → float64 → ℤ
  unfolding fallback calculate
  backoff_by none s attempt r = fallback s.strategy s attempt r
  backoff_by (some c) s attempt r =
      calculate f c attempt s.initial_backoff s.max_backoff s.multiplier s.jitter r

  -- `calculateBackoff` of `Client` and of `DefaultRetryPolicy`.
  unfoldable pub calculate_backoff : Settings f → ℤ → float64 → ℤ
  unfolding backoff_by
  calculate_backoff s attempt r = backoff_by s.calculator s attempt r
