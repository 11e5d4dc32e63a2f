-- ===== src/Limiter.antt =====
-- The token bucket of rate_limiter.go (type in types.go), one call at a time: `now` is the reading
-- of the clock in nanoseconds. With no other call in between, each compare-and-swap succeeds and
-- each retry loop makes one round.
pub mod Bucket
pub mod Rate
pub mod Optimized
mod Examples
use klayengo.Prelude.{Bool, true, false, if◌then◌else◌, List, [], ◌∷◌}
use klayengo.Prelude.Int.{ℤ, pos, ltb_ℤ, leb_ℤ, eqb_ℤ}
use klayengo.Prelude.Int64.{add64, sub64, mul64, div64}

pub record RateLimiter : Type 0 where
  pub tokens : ℤ
  pub max_tokens : ℤ
  pub refill_rate : ℤ
  pub last_refill : ℤ

unfoldable pub new_rate_limiter : ℤ → ℤ → ℤ → RateLimiter
new_rate_limiter max_tokens refill_rate now = record {
  max_tokens = max_tokens;
  tokens = max_tokens;
  refill_rate = refill_rate;
  last_refill = now;
}

tokens_to_add : RateLimiter → ℤ → ℤ
tokens_to_add rl now =
    if ltb_ℤ (pos 0) rl.refill_rate then div64 (sub64 now rl.last_refill) rl.refill_rate else pos 0

capped : ℤ → ℤ → ℤ
capped limit n = if ltb_ℤ limit n then limit else n

unfoldable pub refill_tokens : RateLimiter → ℤ → RateLimiter
unfolding tokens_to_add capped
refill_tokens rl now =
    let added = tokens_to_add rl now in
    if eqb_ℤ added (pos 0) then rl else (record rl {
      tokens = capped rl.max_tokens (add64 rl.tokens added);
      last_refill = add64 rl.last_refill (mul64 added rl.refill_rate);
    })

unfoldable pub consume_token : RateLimiter → RateLimiter × Bool
consume_token rl =
    if leb_ℤ rl.tokens (pos 0)
    then (rl, false)
    else (record rl { tokens = sub64 rl.tokens (pos 1) }, true)

unfoldable pub allow : RateLimiter → ℤ → RateLimiter × Bool
unfolding refill_tokens consume_token
allow rl now = consume_token (refill_tokens rl now)

-- Calls of `Allow` at the given times: the limiter at the end, and the answers.
unfoldable pub run : RateLimiter → List ℤ → RateLimiter × List Bool
run rl [] = (rl, [])
run rl (now ∷ ts) =
    let (rl', granted) = allow rl now in
    let (last, answers) = run rl' ts in (last, granted ∷ answers)
