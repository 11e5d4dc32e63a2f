-- ===== src/Limiter/Optimized/Rate.antt =====
-- How many requests the limiter of rate_limiter_optimized.go grants.
use Prim.Native.Nat.{max}
use native.Mathlib.Nat.{le-div_iff_mul-le, div-le_self}
use klayengo.Prelude.{
  ℕ, ◌+◌, ◌-◌, ◌*◌, ◌/◌, ◌≤◌, ◌<◌, ◌≡◌, sym, ap, subst, ◌∙◌, Bool, if◌then◌else◌, List, [], ◌∷◌,
  arith, leb,
}
use klayengo.Prelude.Int.{ℤ, pos, leb_ℤ}
use klayengo.Prelude.History.{grants, granted, Rising, Rising-le}
use klayengo.Limiter.Bucket.{div_pos}
use klayengo.Limiter.Rate.{join, excess}
use klayengo.Limiter.Optimized.{
  OptimizedRateLimiter, new_optimized_rate_limiter, rate_of, batch_of, allow,
}
use klayengo.Limiter.Optimized.Batched.{
  Batched, limiter, IsFilled, request, fill, take_one-paid, request-IsFilled, allow-batched,
  request-paid,
}

-- The answers to a history of `Allow` calls.
abbrev pub answers : OptimizedRateLimiter → List ℕ → List Bool
answers rl [] = []
answers rl (t ∷ ts) = (allow rl (pos t)).1 ∷ answers (allow rl (pos t)).0 ts

later :
    (b : Batched) (now t : ℕ)
    → IsFilled b now
    → now ≤ t
    → b.size + b.size + t < 9223372036854775808
    → IsFilled b t
later b now t v h r = record {
  filled = v.filled;
  ticking = v.ticking;
  batched = v.batched;
  past = let past = v.past in omega arith;
  range = r;
}

-- What the requests of a history take, the bucket held or the time has brought.
run-paid :
    (b : Batched) (now end : ℕ) (ts : List ℕ)
    → IsFilled b now
    → b.size + b.size + end < 9223372036854775808
    → Rising now ts end
    → granted (answers (limiter b) ts) * b.period + b.since ≤ b.tokens * b.period + end
run-paid b now end [] v r h = let past = v.past in omega arith
run-paid b now end (t ∷ ts) v r h =
    let in_time = Rising-le t end ts h.1 in
    let w = later b now t v h.0 (omega arith) in
    let b' = (request b t).0 in
    let (tokens, since, period, size, batch) = take_one-paid (fill b t) in
    let rest = granted (answers (limiter b') ts) in
    subst
      (λ p.
        (grants p.1 + granted (answers p.0 ts)) * b.period + b.since ≤ b.tokens * b.period + end)
      (sym (allow-batched b t w))
      (join b.period (grants (request b t).1) rest b.tokens b'.tokens b.since b'.since end
        (request-paid b t w)
        (subst (λ p. rest * p + b'.since ≤ b'.tokens * p + end) period
          (run-paid b' t end ts (request-IsFilled b t w) (omega arith) h.1)))

rate_of-max :
    (period size : ℕ)
    → period < 9223372036854775808
    → rate_of (pos period) (pos size) ≡ pos (max 1 (period / size))
unfolding rate_of
rate_of-max period size r = ground (arith, div_pos period size)

abbrev batch_size_of : ℕ → ℕ → ℕ
batch_size_of period size = if leb 1_000_000_000 period then max 1 (size / 10) else 1

batch_of-max :
    (period size : ℕ)
    → size < 9223372036854775808
    → batch_of (pos period) (pos size) ≡ pos (batch_size_of period size)
unfolding batch_of
batch_of-max period size r = ground (arith, div_pos size 10)

abbrev made_of : ℤ → ℤ → ℤ → ℤ → OptimizedRateLimiter
made_of size start rate batch = record {
  max_tokens = size;
  refill_rate = rate;
  tokens_per_fill = batch;
  tokens = size;
  last_refill = start;
  refill_threshold = rate;
  batch_size = batch;
}

abbrev new_batched : ℕ → ℕ → ℕ → Batched
new_batched size period start = record {
  tokens = size;
  size = size;
  period = max 1 (period / size);
  batch = batch_size_of period size;
  since = start;
}

new-limiter :
    (size period start : ℕ)
    → 0 < size
    → 0 < period
    → size < 9223372036854775808
    → period < 9223372036854775808
    → new_optimized_rate_limiter (pos size) (pos period) (pos start)
      ≡ limiter (new_batched size period start)
unfolding new_optimized_rate_limiter
new-limiter size period start s p r q =
    let given : (if leb_ℤ (pos size) (pos 0) then pos 1 else pos size) ≡ pos size =
      ground (arith, s) in
    let timed : (if leb_ℤ (pos period) (pos 0) then pos 1_000_000_000 else pos period)
        ≡ pos period =
      ground (arith, p) in
    let pr = if leb_ℤ (pos period) (pos 0) then pos 1_000_000_000 else pos period in
    ap (λ z. made_of z (pos start) (rate_of pr z) (batch_of pr z)) given
    ∙ ap (λ z. made_of (pos size) (pos start) (rate_of z (pos size)) (batch_of z (pos size))) timed
    ∙ ap (λ z. made_of (pos size) (pos start) z (batch_of (pos period) (pos size)))
        (rate_of-max period size q)
    ∙ ap (λ z. made_of (pos size) (pos start) (pos (max 1 (period / size))) z)
        (batch_of-max period size r)

-- A new optimized limiter for `size` tokens per `period`, that is, for a token each `period / size`
-- nanoseconds, rounded down, but at least one: in any history of `Allow` calls whose clock readings start at
-- its creation, do not go back and end by `end` it grants at most `size` requests and one more for each
-- token's time from its creation to `end`; provided that size and period are positive, and that the period
-- and `2 * size + end` are int64 values.
pub granted-batched_bounded :
    (size period start end : ℕ) (ts : List ℕ)
    → 0 < size
    → 0 < period
    → period < 9223372036854775808
    → size + size + end < 9223372036854775808
    → Rising start ts end
    → granted (answers (new_optimized_rate_limiter (pos size) (pos period) (pos start)) ts)
      ≤ size + (end - start) / max 1 (period / size)
granted-batched_bounded size period start end ts s p q r h =
    let rate = max 1 (period / size) in
    let batch = batch_size_of period size in
    let b = new_batched size period start in
    let made : new_optimized_rate_limiter (pos size) (pos period) (pos start) ≡ limiter b =
      new-limiter size period start s p (omega arith) q in
    let in_time = Rising-le start end ts h in
    let fits : batch ≤ size = ground (arith, div-le_self size 10) in
    let v : IsFilled b start = record {
      filled = omega arith;
      ticking = omega arith;
      batched = fits;
      past = omega arith;
      range = omega arith;
    } in
    let g = granted (answers (limiter b) ts) in
    let few =
      (le-div_iff_mul-le {k = rate} {x = g - size} {y = end - start} (omega arith)).1
        (excess rate g size start end (run-paid b start end ts v (omega arith) h) in_time) in
    subst (λ rl. granted (answers rl ts) ≤ size + (end - start) / rate) (sym made)
      (omega (arith, few))
