-- ===== src/Backoff/Bounds.antt =====
-- How long a backoff is.
use klayengo.Prelude.{
  ◌≡◌, refl, sym, subst, false, if◌then◌else◌, Option, none, some, arith, Bool-cases, inl, inr,
}
use klayengo.Prelude.Int.{ℤ, pos, ltb_ℤ, leb_ℤ, ◌≤ℤ◌}
use klayengo.Backoff.{
  BackoffStrategy, exponential_jitter, decorrelated_jitter, other_strategy, Strategy,
  exponential_jitter_strategy, decorrelated_jitter_strategy, Float, clamp_jitter, cap, add_jitter,
  pow, clamp_attempt, limit_upper, calculate_exponential, calculate_decorrelated, calculate,
  calculator_for, Settings, fallback_exponential, fallback_decorrelated, fallback, backoff_by,
  calculate_backoff,
}

module _ (f : Float) where
  open f use {float64, of_int, to_duration, add, sub, mul, lt}

  cap-le : (m b : ℤ) → cap f m b ≤ℤ m
  unfolding cap
  cap-le m b = ground arith

  add_jitter-le : (b a m : ℤ) → b ≤ℤ m → add_jitter f b a m ≤ℤ m
  unfolding add_jitter
  add_jitter-le b a m h = ground arith

  exponential-le :
      (attempt i m : ℤ) (multiplier jitter r : float64)
      → calculate_exponential f attempt i m multiplier jitter r ≤ℤ m
  unfolding calculate_exponential
  exponential-le attempt i m multiplier jitter r =
      let raw = to_duration (mul (of_int i) (pow f multiplier (clamp_attempt f attempt))) in
      let b = cap f m raw in
      let j = clamp_jitter f jitter in
      let a = to_duration (mul (mul (of_int b) j) r) in
      elim (Bool-cases (lt (of_int (pos 0)) j)) [
        | inl p ↦ rw p (add_jitter-le b a m (cap-le m raw))
        | inr p ↦ rw p (cap-le m raw)
      ]

  decorrelated-le :
      (attempt i m : ℤ) (r : float64) → i ≤ℤ m → calculate_decorrelated f attempt i m r ≤ℤ m
  unfolding calculate_decorrelated
  decorrelated-le attempt i m r h =
      let a = if ltb_ℤ (pos 10) attempt then pos 10 else attempt in
      let base = of_int i in
      let upper = limit_upper f base (of_int m) (mul base (pow f (of_int (pos 3)) a)) in
      elim (Bool-cases (leb_ℤ attempt (pos 0))) [
        | inl p ↦ rw p h
        | inr p ↦ rw p (cap-le m (to_duration (add base (mul r (sub upper base)))))
      ]

  calculate-le :
      (c : Strategy) (attempt i m : ℤ) (multiplier jitter r : float64)
      → i ≤ℤ m
      → calculate f c attempt i m multiplier jitter r ≤ℤ m
  unfolding calculate
  calculate-le exponential_jitter_strategy attempt i m multiplier jitter r h =
      exponential-le attempt i m multiplier jitter r
  calculate-le decorrelated_jitter_strategy attempt i m multiplier jitter r h =
      decorrelated-le attempt i m r h

  module _ (ordered : lt (of_int (pos 1)) (of_int (pos 0)) ≡ false) where
    clamp_jitter_nested :
        (x : float64)
        → clamp_jitter f x ≡ (
            let low = if lt x (of_int (pos 0)) then of_int (pos 0) else x in
            if lt (of_int (pos 1)) low then of_int (pos 1) else low)
    unfolding clamp_jitter
    clamp_jitter_nested x = elim (Bool-cases (lt x (of_int (pos 0)))) [
      | inl p ↦ rw (p, ordered)
      | inr p ↦ rw p
    ]

    fallback_exponential_lem :
        (s : Settings f) (attempt : ℤ) (r : float64)
        → fallback_exponential f s attempt r
          ≡ calculate_exponential f attempt s.initial_backoff s.max_backoff s.multiplier s.jitter r
    unfolding fallback_exponential calculate_exponential
    fallback_exponential_lem s attempt r = rw (clamp_jitter_nested s.jitter)

    fallback_lem :
        (g : BackoffStrategy) (s : Settings f) (attempt : ℤ) (r : float64)
        → fallback f g s attempt r
          ≡ calculate f
              (calculator_for g)
              attempt
              s.initial_backoff
              s.max_backoff
              s.multiplier
              s.jitter
              r
    unfolding fallback calculate calculator_for fallback_decorrelated calculate_decorrelated
    fallback_lem exponential_jitter s attempt r = fallback_exponential_lem s attempt r
    fallback_lem decorrelated_jitter s attempt r = refl
    fallback_lem (other_strategy n) s attempt r = fallback_exponential_lem s attempt r

    -- Where 1 < 0 is false for float64, `calculateBackoff` without a calculator computes what it
    -- computes with the calculator of its strategy.
    pub calculate_backoff-none :
        (s : Settings f) (attempt : ℤ) (r : float64)
        → calculate_backoff f (record s { calculator = none }) attempt r
          ≡ calculate_backoff f
              (record s { calculator = some (calculator_for s.strategy) })
              attempt
              r
    unfolding calculate_backoff
    calculate_backoff-none s attempt r =
        fallback_lem s.strategy (record s { calculator = none }) attempt r

    backoff_by-le :
        (c : Option Strategy) (s : Settings f) (attempt : ℤ) (r : float64)
        → s.initial_backoff ≤ℤ s.max_backoff
        → backoff_by f c s attempt r ≤ℤ s.max_backoff
    unfolding backoff_by
    backoff_by-le none s attempt r h =
        subst (λ d. d ≤ℤ s.max_backoff) (sym (fallback_lem s.strategy s attempt r))
          (calculate-le (calculator_for s.strategy) attempt s.initial_backoff s.max_backoff
            s.multiplier s.jitter r h)
    backoff_by-le (some c) s attempt r h =
        calculate-le c attempt s.initial_backoff s.max_backoff s.multiplier s.jitter r h

    -- Whatever the float64 operations give, but that 1 < 0 is false, no delay is longer than
    -- `maxBackoff`, provided that `initialBackoff` is not: for every attempt, strategy, calculator,
    -- multiplier, jitter and random number.
    pub calculate_backoff-le-max :
        (s : Settings f) (attempt : ℤ) (r : float64)
        → s.initial_backoff ≤ℤ s.max_backoff
        → calculate_backoff f s attempt r ≤ℤ s.max_backoff
    unfolding calculate_backoff
    calculate_backoff-le-max s attempt r h = backoff_by-le s.calculator s attempt r h
