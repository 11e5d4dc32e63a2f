-- ===== src/Backoff/Examples.antt =====
-- The theorems on backoffs, with whole numbers in the place of float64.
use klayengo.Prelude.{◌≡◌, refl, none, arith}
use klayengo.Prelude.Int.{ℤ, pos, ◌+ℤ◌, ◌-ℤ◌, ◌*ℤ◌, ◌≤ℤ◌, ltb_ℤ}
use klayengo.Backoff.{
  exponential_jitter, exponential_jitter_strategy, Float, Settings, calculate, calculate_backoff,
}
use klayengo.Backoff.Bounds.{calculate_backoff-le-max}

abbrev pub whole : Float
whole = record {
  float64 = ℤ;
  of_int = λ z. z;
  to_duration = λ z. z;
  add = ◌+ℤ◌;
  sub = ◌-ℤ◌;
  mul = ◌*ℤ◌;
  lt = ltb_ℤ;
}

abbrev pub settings : Settings whole
settings = record {
  initial_backoff = pos 100;
  max_backoff = pos 1000;
  multiplier = pos 2;
  jitter = pos 0;
  strategy = exponential_jitter;
  calculator = none;
}

doubles :
    calculate whole exponential_jitter_strategy (pos 3) (pos 100) (pos 1000) (pos 2) (pos 0) (pos 0)
    ≡ pos 800
unfolding calculate ◌*ℤ◌
doubles = refl

calculate_backoff-le-max_example : calculate_backoff whole settings (pos 9) (pos 0) ≤ℤ pos 1000
calculate_backoff-le-max_example =
    calculate_backoff-le-max whole refl settings (pos 9) (pos 0) (omega arith)
