-- ===== src/Limiter/Optimized.antt =====
-- The rate limiter of rate_limiter_optimized.go, one call at a time: `now` is the reading of the
-- clock in nanoseconds, and each compare-and-swap succeeds. The size of its memory is
-- left out.
pub mod Tokens
pub mod Batched
pub mod Rate
mod Examples
use klayengo.Prelude.{Bool, true, false, if◌then◌else◌, Option, none, some, List, [], ◌∷◌}
use klayengo.Backoff.{Float}
use klayengo.Prelude.Int.{ℤ, pos, ltb_ℤ, leb_ℤ, eqb_ℤ}
use klayengo.Prelude.Int64.{add64, sub64, mul64, div64}

pub record OptimizedRateLimiter : Type 0 where
  pub max_tokens : ℤ
  pub refill_rate : ℤ
  pub tokens_per_fill : ℤ
  pub tokens : ℤ
  pub last_refill : ℤ
  pub refill_threshold : ℤ
  pub batch_size : ℤ

-- The nanoseconds for a token, at least one.
rate_of : ℤ → ℤ → ℤ
rate_of period max_tokens =
    let rate = div64 period max_tokens in if eqb_ℤ rate (pos 0) then pos 1 else rate

-- A tenth of the tokens for a period of a second or more, at least one.
batch_of : ℤ → ℤ → ℤ
batch_of period max_tokens =
    if leb_ℤ (pos 1_000_000_000) period
    then (let batch = div64 max_tokens (pos 10) in if eqb_ℤ batch (pos 0) then pos 1 else batch)
    else pos 1

unfoldable pub new_optimized_rate_limiter : ℤ → ℤ → ℤ → OptimizedRateLimiter
unfolding rate_of batch_of
new_optimized_rate_limiter max_tokens refill_rate now =
    let size = if leb_ℤ max_tokens (pos 0) then pos 1 else max_tokens in
    let period = if leb_ℤ refill_rate (pos 0) then pos 1_000_000_000 else refill_rate in
    record {
      max_tokens = size;
      refill_rate = rate_of period size;
      tokens_per_fill = batch_of period size;
      tokens = size;
      last_refill = now;
      refill_threshold = rate_of period size;
      batch_size = batch_of period size;
    }

least : ℤ → ℤ → ℤ
least a b = if ltb_ℤ b a then b else a

refill_by : OptimizedRateLimiter → ℤ → OptimizedRateLimiter
unfolding least
refill_by rl to_add =
    if eqb_ℤ to_add (pos 0)
    then rl
    else (let added = least to_add rl.batch_size in
        record rl {
          last_refill = add64 rl.last_refill (mul64 added rl.refill_rate);
          tokens = least (add64 rl.tokens added) rl.max_tokens;
        })

unfoldable pub fast_refill : OptimizedRateLimiter → ℤ → OptimizedRateLimiter
unfolding refill_by
fast_refill rl now =
    let elapsed = sub64 now rl.last_refill in
    if ltb_ℤ elapsed rl.refill_threshold then rl else refill_by rl (div64 elapsed rl.refill_rate)

unfoldable pub consume_token_fast : OptimizedRateLimiter → OptimizedRateLimiter × Bool
consume_token_fast rl =
    if leb_ℤ rl.tokens (pos 0)
    then (rl, false)
    else (record rl { tokens = sub64 rl.tokens (pos 1) }, true)

unfoldable pub allow : OptimizedRateLimiter → ℤ → OptimizedRateLimiter × Bool
unfolding fast_refill consume_token_fast
allow rl now = consume_token_fast (fast_refill rl now)

take_n : OptimizedRateLimiter → ℤ → OptimizedRateLimiter × Bool
take_n rl n =
    if ltb_ℤ rl.tokens n then (rl, false) else (record rl { tokens = sub64 rl.tokens n }, true)

unfoldable pub allow_n : OptimizedRateLimiter → ℤ → ℤ → OptimizedRateLimiter × Bool
unfolding fast_refill take_n
allow_n rl n now =
    if leb_ℤ n (pos 0)
    then (rl, true)
    else if ltb_ℤ rl.max_tokens n
    then (rl, false)
    else take_n (fast_refill rl now) n

-- The time from which the token may be used; the clock is read again at the end.
unfoldable pub reserve : OptimizedRateLimiter → ℤ → ℤ → OptimizedRateLimiter × ℤ
unfolding fast_refill
reserve rl now later =
    let filled = fast_refill rl now in
    if ltb_ℤ (pos 0) filled.tokens
    then (record filled { tokens = sub64 filled.tokens (pos 1) }, later)
    else (filled, add64 later filled.refill_rate)

unfoldable pub set_rate : OptimizedRateLimiter → ℤ → OptimizedRateLimiter
unfolding rate_of
set_rate rl new_rate =
    if leb_ℤ new_rate (pos 0)
    then rl
    else (let rate = rate_of new_rate rl.max_tokens in
        record rl { refill_rate = rate; refill_threshold = rate })

unfoldable pub reset : OptimizedRateLimiter → ℤ → OptimizedRateLimiter
reset rl now = record rl { tokens = rl.max_tokens; last_refill = now }

unfoldable pub burst : OptimizedRateLimiter → ℤ
burst rl = rl.max_tokens

unfoldable pub rate : OptimizedRateLimiter → ℤ
rate rl = mul64 rl.refill_rate rl.max_tokens

-- The calls that change the limiter, each with what it is given.
pub data Call : Type 0 where
  allows resets sets_rate : ℤ → Call
  allows_n reserves : ℤ → ℤ → Call

unfoldable pub step : OptimizedRateLimiter → Call → OptimizedRateLimiter
step rl (allows now) = (allow rl now).0
step rl (allows_n n now) = (allow_n rl n now).0
step rl (reserves now later) = (reserve rl now later).0
step rl (sets_rate new_rate) = set_rate rl new_rate
step rl (resets now) = reset rl now

unfoldable pub run : OptimizedRateLimiter → List Call → OptimizedRateLimiter
run rl [] = rl
run rl (c ∷ cs) = run (step rl c) cs

pub record RateLimiterStats (float64 : Type 0) : Type 0 where
  pub current_tokens : ℤ
  pub max_tokens : ℤ
  pub refill_rate : ℤ
  pub last_refill : Option ℤ
  pub tokens_per_second : float64
  pub utilization : float64

-- `last_refill` is `none` for the zero time. The division of floating-point numbers is a parameter.
unfoldable pub get_stats :
    (f : Float)
    → (f.float64 → f.float64 → f.float64)
    → OptimizedRateLimiter
    → RateLimiterStats f.float64
get_stats f div rl = record {
  current_tokens = rl.tokens;
  max_tokens = rl.max_tokens;
  refill_rate = mul64 rl.refill_rate rl.max_tokens;
  last_refill = if ltb_ℤ (pos 0) rl.last_refill then some rl.last_refill else none;
  tokens_per_second = div (f.of_int (pos 1_000_000_000)) (f.of_int rl.refill_rate);
  utilization = div (f.of_int rl.tokens) (f.of_int rl.max_tokens);
}
