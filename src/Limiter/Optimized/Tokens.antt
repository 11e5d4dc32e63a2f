-- ===== src/Limiter/Optimized/Tokens.antt =====
-- The tokens of the limiter of rate_limiter_optimized.go stay within its bucket.
use klayengo.Prelude.{
  ◌≡◌, refl, Bool, true, false, if◌then◌else◌, List, [], ◌∷◌, arith, Bool-cases, inl, inr,
}
use klayengo.Prelude.Int.{ℤ, pos, negsuc, ◌≤ℤ◌, ◌<ℤ◌, ◌+ℤ◌, ◌-ℤ◌, ltb_ℤ, leb_ℤ}
use klayengo.Prelude.Int64.{
  InRange64, add64, sub64, div64, add64_exact, sub64_exact, wrap64-InRange64,
}
use native.Mathlib.Nat.{div-le_self}
use klayengo.Limiter.Bucket.{div_pos}
use klayengo.Limiter.Optimized.{
  OptimizedRateLimiter, new_optimized_rate_limiter, rate_of, batch_of, least, refill_by,
  fast_refill, consume_token_fast, allow, take_n, allow_n, reserve, set_rate, reset, Call, allows,
  allows_n, reserves, sets_rate, resets, step, run,
}

-- At least no token and at most a full bucket, which holds less than 2^62 tokens, and batches of at
-- least one token and at most a full bucket; the rate and the threshold are positive.
pub record InBucket (rl : OptimizedRateLimiter) : Type 0 where
  pub some_size : pos 0 <ℤ rl.max_tokens
  pub most_size : rl.max_tokens ≤ℤ pos 4611686018427387903
  pub least_tokens : pos 0 ≤ℤ rl.tokens
  pub most_tokens : rl.tokens ≤ℤ rl.max_tokens
  pub some_batch : pos 0 <ℤ rl.batch_size
  pub most_batch : rl.batch_size ≤ℤ rl.max_tokens
  pub some_rate : pos 0 <ℤ rl.refill_rate
  pub some_threshold : pos 0 <ℤ rl.refill_threshold

add64_small :
    (a b : ℤ)
    → pos 0 ≤ℤ a
    → a ≤ℤ pos 4611686018427387903
    → b ≤ℤ pos 4611686018427387903
    → negsuc 4611686018427387903 ≤ℤ b
    → add64 a b ≡ a +ℤ b
unfolding ◌+ℤ◌
add64_small a b h g i j = add64_exact a b (ground arith)

div64_natural : (a b : ℤ) → pos 0 ≤ℤ a → pos 0 ≤ℤ b → InRange64 a → pos 0 ≤ℤ div64 a b
div64_natural (pos a) (pos b) h g r = ground (arith, div_pos a b r.0)
div64_natural (negsuc a) b h g r = ground (arith, h)
div64_natural (pos a) (negsuc b) h g r = ground (arith, g)

refill_by-InBucket :
    (rl : OptimizedRateLimiter) (n : ℤ) → pos 0 ≤ℤ n → InBucket rl → InBucket (refill_by rl n)
unfolding refill_by least ◌+ℤ◌
refill_by-InBucket rl n h b =
    let added = least n rl.batch_size in
    let sum : add64 rl.tokens added ≡ rl.tokens +ℤ added =
      add64_small rl.tokens added b.least_tokens (ground (arith, b)) (ground (arith, b))
        (ground (arith, b)) in
    ground (arith, b, sum)

sub64-InRange64 : (a b : ℤ) → InRange64 (sub64 a b)
unfolding sub64
sub64-InRange64 a b = wrap64-InRange64 (a -ℤ b)

refill_if :
    (wait : Bool) (rl : OptimizedRateLimiter) (n : ℤ)
    → (wait ≡ false → pos 0 ≤ℤ n)
    → InBucket rl
    → InBucket (if wait then rl else refill_by rl n)
refill_if true rl n h b = b
refill_if false rl n h b = refill_by-InBucket rl n (h refl) b

fast_refill-InBucket :
    (rl : OptimizedRateLimiter) (now : ℤ) → InBucket rl → InBucket (fast_refill rl now)
unfolding fast_refill
fast_refill-InBucket rl now b =
    let elapsed = sub64 now rl.last_refill in
    refill_if (ltb_ℤ elapsed rl.refill_threshold) rl (div64 elapsed rl.refill_rate)
      (λ passed.
        div64_natural elapsed rl.refill_rate (ground (arith, passed, b)) (ground (arith, b))
          (sub64-InRange64 now rl.last_refill))
      b

consume-InBucket :
    (rl : OptimizedRateLimiter) (n : ℤ)
    → pos 0 ≤ℤ n
    → n ≤ℤ rl.tokens
    → InBucket rl
    → InBucket (record rl { tokens = sub64 rl.tokens n })
unfolding ◌-ℤ◌
consume-InBucket rl n h g b =
    let rest : sub64 rl.tokens n ≡ rl.tokens -ℤ n = sub64_exact rl.tokens n (ground (arith, b)) in
    ground (arith, b, rest)

allow-InBucket : (rl : OptimizedRateLimiter) (now : ℤ) → InBucket rl → InBucket (allow rl now).0
unfolding allow consume_token_fast
allow-InBucket rl now b =
    let filled = fast_refill rl now in
    let v = fast_refill-InBucket rl now b in
    elim (Bool-cases (leb_ℤ filled.tokens (pos 0))) [
      | inl e ↦ rw e v
      | inr e ↦ rw e (consume-InBucket filled (pos 1) (omega arith) (ground (arith, e)) v)
    ]

take_n-InBucket :
    (rl : OptimizedRateLimiter) (n : ℤ) → pos 0 ≤ℤ n → InBucket rl → InBucket (take_n rl n).0
unfolding take_n
take_n-InBucket rl n h v = elim (Bool-cases (ltb_ℤ rl.tokens n)) [
  | inl e ↦ rw e v
  | inr e ↦ rw e (consume-InBucket rl n h (ground (arith, e)) v)
]

allow_n-InBucket :
    (rl : OptimizedRateLimiter) (n now : ℤ) → InBucket rl → InBucket (allow_n rl n now).0
unfolding allow_n
allow_n-InBucket rl n now b =
    let v = fast_refill-InBucket rl now b in
    elim (Bool-cases (leb_ℤ n (pos 0))) [
      | inl e ↦ rw e b
      | inr e ↦ elim (Bool-cases (ltb_ℤ rl.max_tokens n)) [
        | inl g ↦ rw (e, g) b
        | inr g ↦ rw (e, g) (take_n-InBucket (fast_refill rl now) n (ground (arith, e)) v)
      ]
    ]

reserve-InBucket :
    (rl : OptimizedRateLimiter) (now later : ℤ) → InBucket rl → InBucket (reserve rl now later).0
unfolding reserve
reserve-InBucket rl now later b =
    let filled = fast_refill rl now in
    let v = fast_refill-InBucket rl now b in
    elim (Bool-cases (ltb_ℤ (pos 0) filled.tokens)) [
      | inl e ↦ rw e (consume-InBucket filled (pos 1) (omega arith) (ground (arith, e)) v)
      | inr e ↦ rw e v
    ]

rate_of_positive :
    (period size : ℤ)
    → pos 0 <ℤ period
    → pos 0 ≤ℤ size
    → InRange64 period
    → pos 0 <ℤ rate_of period size
unfolding rate_of
rate_of_positive period size h g r =
    ground (arith, div64_natural period size (omega (arith, h)) g r)

batch_of_bounds :
    (period size : ℤ)
    → pos 0 <ℤ size
    → InRange64 size
    → (pos 0 <ℤ batch_of period size) × (batch_of period size ≤ℤ size)
unfolding batch_of
batch_of_bounds period (pos m) h r = ground (arith, div_pos m 10 r.0, div-le_self m 10)
batch_of_bounds period (negsuc m) h r = ground (arith, h)

-- A new rate is a duration, an int64.
abbrev pub Fits : Call → Type 0
Fits (allows now) = pos 0 ≤ℤ pos 0
Fits (allows_n n now) = pos 0 ≤ℤ pos 0
Fits (reserves now later) = pos 0 ≤ℤ pos 0
Fits (sets_rate new_rate) = InRange64 new_rate
Fits (resets now) = pos 0 ≤ℤ pos 0

abbrev pub AllFit : List Call → Type 0
AllFit [] = pos 0 ≤ℤ pos 0
AllFit (c ∷ cs) = Fits c × AllFit cs

step-InBucket : (rl : OptimizedRateLimiter) (c : Call) → Fits c → InBucket rl → InBucket (step rl c)
unfolding step set_rate reset
step-InBucket rl (allows now) h b = allow-InBucket rl now b
step-InBucket rl (allows_n n now) h b = allow_n-InBucket rl n now b
step-InBucket rl (reserves now later) h b = reserve-InBucket rl now later b
step-InBucket rl (resets now) h b = ground (arith, b)
step-InBucket rl (sets_rate r) h b = elim (Bool-cases (leb_ℤ r (pos 0))) [
  | inl e ↦ rw e b
  | inr e ↦
      let p = rate_of_positive r rl.max_tokens (ground (arith, e)) (ground (arith, b)) h in
      rw e (ground (arith, b, p))
]

run-InBucket :
    (rl : OptimizedRateLimiter) (cs : List Call) → AllFit cs → InBucket rl → InBucket (run rl cs)
unfolding run
run-InBucket rl [] h b = b
run-InBucket rl (c ∷ cs) h b = run-InBucket (step rl c) cs h.1 (step-InBucket rl c h.0 b)

new-InBucket :
    (size period now : ℤ)
    → pos 0 <ℤ size
    → size ≤ℤ pos 4611686018427387903
    → pos 0 <ℤ period
    → InRange64 period
    → InBucket (new_optimized_rate_limiter size period now)
unfolding new_optimized_rate_limiter
new-InBucket size period now h g p r =
    let rate = rate_of_positive period size p (omega (arith, h)) r in
    let batch = batch_of_bounds period size h (ground (arith, h, g)) in
    ground (arith, h, g, p, rate, batch)

-- Whatever calls of `Allow`, `AllowN`, `Reserve`, `SetRate` and `Reset` a new limiter of 1 to
-- 2^62 - 1 tokens and with a positive period gets, at whatever readings of the clock and with rates
-- that are int64 values, its tokens stay between none and a full bucket, its batches between one
-- token and a full bucket, and its rate and its threshold positive, so no division is by zero.
pub run-new-InBucket :
    (size period now : ℤ) (cs : List Call)
    → pos 0 <ℤ size
    → size ≤ℤ pos 4611686018427387903
    → pos 0 <ℤ period
    → InRange64 period
    → AllFit cs
    → InBucket (run (new_optimized_rate_limiter size period now) cs)
run-new-InBucket size period now cs h g p r fit =
    run-InBucket (new_optimized_rate_limiter size period now) cs fit
      (new-InBucket size period now h g p r)
