-- ===== src/Limiter/Bucket.antt =====
-- The limiter refines an ideal token bucket over the natural numbers, as long as no time or count
-- leaves the range of an int64.
use Prim.Native.Nat.{min}
use native.Mathlib.Nat.{div-zero, zero-div, div-le_self, div-mul-le_self}
use klayengo.Prelude.{
  ℕ, ◌+◌, ◌-◌, ◌*◌, ◌/◌, ◌≤◌, ◌<◌, ◌≡◌, Bool, true, false, if◌then◌else◌, ◌==◌, arith,
}
use klayengo.Prelude.Int.{pos}
use klayengo.Prelude.Int64.{mul64, div64, add64_pos, sub64_pos}
use klayengo.Limiter.{RateLimiter, refill_tokens, consume_token, allow}

-- The specification: `tokens` of at most `size`, one more for every `period` since `since`.
pub record Bucket : Type 0 where
  pub tokens : ℕ
  pub size : ℕ
  pub period : ℕ
  pub since : ℕ

-- Whole periods that have passed are turned into tokens.
unfoldable pub refill : Bucket → ℕ → Bucket
refill b now =
    let rounds = (now - b.since) / b.period in
    record b { tokens = min b.size (b.tokens + rounds); since = b.since + rounds * b.period }

unfoldable pub take_one : Bucket → Bucket × Bool
take_one b = if b.tokens == 0 then (b, false) else (record b { tokens = b.tokens - 1 }, true)

-- The limiter that holds the bucket's numbers.
abbrev pub limiter : Bucket → RateLimiter
limiter b = record {
  tokens = pos b.tokens;
  max_tokens = pos b.size;
  refill_rate = pos b.period;
  last_refill = pos b.since;
}

pub record IsValid (b : Bucket) (now : ℕ) : Type 0 where
  pub filled : b.tokens ≤ b.size
  pub ticking : 0 < b.period
  pub past : b.since ≤ now
  pub range : b.size + now < 9223372036854775808

pub mul_pos : (a b : ℕ) → a * b < 9223372036854775808 → mul64 (pos a) (pos b) ≡ pos (a * b)
unfolding mul64
mul_pos a b h = ground arith

pub div_pos : (a b : ℕ) → a < 9223372036854775808 → div64 (pos a) (pos b) ≡ pos (a / b)
unfolding div64
div_pos a b h = ground (arith, div-zero a, div-zero 0, zero-div b, div-le_self a b)

module _ (b : Bucket) (now : ℕ) (v : IsValid b now) where
  refill_tokens-limiter : refill_tokens (limiter b) (pos now) ≡ limiter (refill b now)
  unfolding refill_tokens refill
  refill_tokens-limiter =
      let elapsed = now - b.since in
      let rounds = elapsed / b.period in
      ground (
        arith,
        sub64_pos now b.since,
        div_pos elapsed b.period,
        div-le_self elapsed b.period,
        div-mul-le_self elapsed b.period,
        add64_pos b.tokens rounds,
        mul_pos rounds b.period,
        add64_pos b.since (rounds * b.period),
      )

  refill-IsValid : IsValid (refill b now) now
  unfolding refill
  refill-IsValid = ground (arith, div-mul-le_self (now - b.since) b.period)

consume_token-limiter :
    (b : Bucket)
    → b.tokens < 9223372036854775808
    → consume_token (limiter b) ≡ (limiter (take_one b).0, (take_one b).1)
unfolding consume_token take_one
consume_token-limiter b h = ground (arith, sub64_pos b.tokens 1)

take_one-IsValid : (b : Bucket) (now : ℕ) → IsValid b now → IsValid (take_one b).0 now
unfolding take_one
take_one-IsValid b now v = ground arith

-- One call of the specification.
abbrev pub request : Bucket → ℕ → Bucket × Bool
request b now = take_one (refill b now)

-- `Allow` is the ideal bucket's request: from a bucket that is valid at the time of the call, with
-- size plus time inside an int64, both give the same answer and the same next state, which is valid
-- again.
pub allow-limiter :
    (b : Bucket) (now : ℕ)
    → IsValid b now
    → (allow (limiter b) (pos now) ≡ (limiter (request b now).0, (request b now).1))
      × IsValid (request b now).0 now
unfolding allow
allow-limiter b now v =
    let w = refill-IsValid b now v in
    (
      rw (refill_tokens-limiter b now v) (consume_token-limiter (refill b now) (omega arith)),
      take_one-IsValid (refill b now) now w,
    )
