-- ===== src/Retry/Delay.antt =====
-- The delay that a `Retry-After` header asks for.
use klayengo.Prelude.{◌*◌, ◌≤◌, ◌<◌, ℕ, ◌≡◌, String, Option, none, some, arith}
use klayengo.Prelude.Int.{ℤ, pos, ◌≤ℤ◌, ◌<ℤ◌}
use klayengo.Prelude.Int64.{mul64}
use klayengo.Retry.{hour, seconds_delay, date_delay, retry_after_value, parse_retry_after}

seconds_delay-le : (s : ℤ) → seconds_delay s ≤ℤ hour
unfolding seconds_delay
seconds_delay-le s = ground arith

date_delay-le : (t : Option ℤ) (now : ℤ) → date_delay t now ≤ℤ hour
unfolding date_delay
date_delay-le none now = omega arith
date_delay-le (some t) now = ground arith

-- Up to 9223372036 seconds a delay is the seconds asked for, at most an hour; just above, up to
-- 13835058055 seconds, it is negative, since the product wraps around.
pub seconds_delay_exact :
    (s : ℕ)
    → (s ≤ 3600 → seconds_delay (pos s) ≡ pos (s * 1_000_000_000))
      × (3600 < s → s ≤ 9223372036 → seconds_delay (pos s) ≡ hour)
      × (9223372036 < s → s ≤ 13835058055 → seconds_delay (pos s) <ℤ pos 0)
unfolding seconds_delay mul64
seconds_delay_exact s = ground arith

retry_after_value-le : (s d : Option ℤ) (now : ℤ) → retry_after_value s d now ≤ℤ hour
unfolding retry_after_value
retry_after_value-le none d now = date_delay-le d now
retry_after_value-le (some s) d now = ground (arith, seconds_delay-le s, date_delay-le d now)

-- No `Retry-After` header, whatever its text and however dates are parsed, asks for more than an
-- hour.
pub parse_retry_after-le :
    (parse_time : String → Option ℤ) (value : String) (now : ℤ)
    → parse_retry_after parse_time value now ≤ℤ hour
unfolding parse_retry_after
parse_retry_after-le parse_time value now =
    ground (arith, retry_after_value-le _ (parse_time value) now)
