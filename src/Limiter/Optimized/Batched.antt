-- ===== src/Limiter/Optimized/Batched.antt =====
-- The limiter of rate_limiter_optimized.go as a bucket over the naturals.
use Prim.Native.Nat.{min}
use native.Mathlib.Nat.{zero-mul, mul-le-mul_right, div-mul-le_self, div-eq_of_lt}
use klayengo.Prelude.{
  ℕ, ◌+◌, ◌-◌, ◌*◌, ◌/◌, ◌≤◌, ◌<◌, ◌≡◌, sym, ap, ◌∙◌, Bool, true, false, if◌then◌else◌, arith,
  ◌==◌ as nat_eq, Bool-cases, inl, inr,
}
use klayengo.Prelude.Int.{ℤ, pos, ltb_ℤ, eqb_ℤ}
use klayengo.Prelude.Int64.{add64, sub64, mul64, div64, add64_pos, sub64_pos}
use klayengo.Prelude.History.{grants}
use klayengo.Limiter.Bucket.{mul_pos, div_pos}
use klayengo.Limiter.Rate.{scale}
use klayengo.Limiter.Optimized.{
  OptimizedRateLimiter, least, refill_by, fast_refill, consume_token_fast, allow,
}

-- A bucket that fills by at most a batch at a time.
pub record Batched : Type 0 where
  pub tokens : ℕ
  pub size : ℕ
  pub period : ℕ
  pub batch : ℕ
  pub since : ℕ

abbrev pub limiter : Batched → OptimizedRateLimiter
limiter b = record {
  max_tokens = pos b.size;
  refill_rate = pos b.period;
  tokens_per_fill = pos b.batch;
  tokens = pos b.tokens;
  last_refill = pos b.since;
  refill_threshold = pos b.period;
  batch_size = pos b.batch;
}

abbrev pub fill_by : Batched → ℕ → Batched
fill_by b n =
    let added = min n b.batch in
    record b { tokens = min (b.tokens + added) b.size; since = b.since + added * b.period }

abbrev pub fill : Batched → ℕ → Batched
fill b now = fill_by b ((now - b.since) / b.period)

pub record IsFilled (b : Batched) (now : ℕ) : Type 0 where
  pub filled : b.tokens ≤ b.size
  pub ticking : 0 < b.period
  pub batched : b.batch ≤ b.size
  pub past : b.since ≤ now
  pub range : b.size + b.size + now < 9223372036854775808

least-min : (a b : ℕ) → least (pos a) (pos b) ≡ pos (min a b)
unfolding least
least-min a b = ground arith

-- What `refill_by` makes of a number that is not zero.
abbrev added_to : Batched → ℕ → OptimizedRateLimiter
added_to b n =
    let added = least (pos n) (pos b.batch) in
    record (limiter b) {
      last_refill = add64 (pos b.since) (mul64 added (pos b.period));
      tokens = least (add64 (pos b.tokens) added) (pos b.size);
    }

module _ (b : Batched) (now n : ℕ) (v : IsFilled b now)
    (past : b.since + min n b.batch * b.period ≤ now) where
  -- A fill by nothing changes nothing.
  fill_by-none : n ≡ 0 → fill_by b n ≡ b
  fill_by-none h =
      let filled = v.filled in
      let none_added : min n b.batch ≡ 0 = omega arith in
      let same : min (b.tokens + min n b.batch) b.size ≡ b.tokens = omega arith in
      let still : b.since + min n b.batch * b.period ≡ b.since =
        ap (λ k. b.since + k * b.period) none_added
        ∙ ap (λ k. b.since + k) (zero-mul b.period)
        ∙ omega arith in
      ap (λ p. record b { tokens = p; since = b.since + min n b.batch * b.period }) same
      ∙ ap (λ p. record b { since = p }) still

  fill_by-some : added_to b n ≡ limiter (fill_by b n)
  fill_by-some =
      let filled = v.filled in
      let batched = v.batched in
      let range = v.range in
      let k = min n b.batch in
      let some_added = least-min n b.batch in
      let tokens : least (add64 (pos b.tokens) (least (pos n) (pos b.batch))) (pos b.size)
          ≡ pos (min (b.tokens + k) b.size) =
        ap (λ z. least (add64 (pos b.tokens) z) (pos b.size)) some_added
        ∙ ap (λ z. least z (pos b.size)) (add64_pos b.tokens k (omega arith))
        ∙ least-min (b.tokens + k) b.size in
      let since : add64 (pos b.since) (mul64 (least (pos n) (pos b.batch)) (pos b.period))
          ≡ pos (b.since + k * b.period) =
        ap (λ z. add64 (pos b.since) (mul64 z (pos b.period))) some_added
        ∙ ap (λ z. add64 (pos b.since) z) (mul_pos k b.period (omega arith))
        ∙ add64_pos b.since (k * b.period) (omega arith) in
      ap (λ z. record (added_to b n) { tokens = z }) tokens
      ∙ ap (λ z. record (limiter (fill_by b n)) { last_refill = z }) since

  refill_by-limiter : refill_by (limiter b) (pos n) ≡ limiter (fill_by b n)
  unfolding refill_by
  refill_by-limiter = elim (Bool-cases (eqb_ℤ (pos n) (pos 0))) [
    | inl e ↦
        ap (λ c. if c then limiter b else added_to b n) e
        ∙ sym (ap limiter (fill_by-none (ground (arith, e))))
    | inr e ↦ ap (λ c. if c then limiter b else added_to b n) e ∙ fill_by-some
  ]

pub take_one : Batched → Batched × Bool
take_one b = if nat_eq b.tokens 0 then (b, false) else (record b { tokens = b.tokens - 1 }, true)

take_one-limiter :
    (b : Batched)
    → b.tokens < 9223372036854775808
    → consume_token_fast (limiter b) ≡ (limiter (take_one b).0, (take_one b).1)
unfolding take_one consume_token_fast
take_one-limiter b r = elim (Bool-cases (nat_eq b.tokens 0)) [
  | inl e ↦ ground (arith, e)
  | inr e ↦ ground (arith, e, sub64_pos b.tokens 1)
]

pub take_one-paid :
    (b : Batched)
    → ((take_one b).0.tokens + grants (take_one b).1 ≡ b.tokens)
      × ((take_one b).0.since ≡ b.since)
      × ((take_one b).0.period ≡ b.period)
      × ((take_one b).0.size ≡ b.size)
      × ((take_one b).0.batch ≡ b.batch)
unfolding take_one
take_one-paid b = ground arith

-- `Allow` by the bucket.
abbrev pub request : Batched → ℕ → Batched × Bool
request b now = take_one (fill b now)

module _ (b : Batched) (now : ℕ) (v : IsFilled b now) where
  -- What a fill adds to the time does not go past the clock.
  fill-past : b.since + min ((now - b.since) / b.period) b.batch * b.period ≤ now
  fill-past =
      let n = (now - b.since) / b.period in
      let few = div-mul-le_self (now - b.since) b.period in
      let at_most : min n b.batch ≤ n = omega arith in
      let less = mul-le-mul_right b.period at_most in let past = v.past in omega arith

  abbrev elapsed : ℤ
  elapsed = sub64 (pos now) (pos b.since)

  fast_refill-limiter : fast_refill (limiter b) (pos now) ≡ limiter (fill b now)
  unfolding fast_refill
  fast_refill-limiter =
      let n = (now - b.since) / b.period in
      let past = v.past in
      let range = v.range in
      let passed : elapsed ≡ pos (now - b.since) = sub64_pos now b.since past (omega arith) in
      let whole : div64 elapsed (pos b.period) ≡ pos n =
        ap (λ z. div64 z (pos b.period)) passed ∙ div_pos (now - b.since) b.period (omega arith) in
      let by = refill_by-limiter b now n v fill-past in
      ap (λ z. if ltb_ℤ elapsed (pos b.period) then limiter b else refill_by (limiter b) z) whole
      ∙ ap (λ z. if ltb_ℤ z (pos b.period) then limiter b else refill_by (limiter b) (pos n)) passed
      ∙ elim (Bool-cases (ltb_ℤ (pos (now - b.since)) (pos b.period))) [
        | inl e ↦
            ap (λ c. if c then limiter b else refill_by (limiter b) (pos n)) e
            ∙ sym (ap limiter (fill_by-none b now n v fill-past (div-eq_of_lt (ground (arith, e)))))
        | inr e ↦ ap (λ c. if c then limiter b else refill_by (limiter b) (pos n)) e ∙ by
      ]

  pub request-IsFilled : IsFilled (request b now).0 now
  request-IsFilled =
      let (tokens, since, period, size, batch) = take_one-paid (fill b now) in
      let past = fill-past in
      let filled = v.filled in
      let batched = v.batched in
      let ticking = v.ticking in
      let range = v.range in
      record {
        filled = omega arith;
        ticking = omega arith;
        batched = omega arith;
        past = omega arith;
        range = omega arith;
      }

  pub allow-batched : allow (limiter b) (pos now) ≡ (limiter (request b now).0, (request b now).1)
  unfolding allow
  allow-batched =
      let range = v.range in
      ap consume_token_fast fast_refill-limiter ∙ take_one-limiter (fill b now) (omega arith)

  -- A granted request uses a token; a token comes for each period that moves `since` forward.
  pub request-paid :
      (grants (request b now).1 + (request b now).0.tokens) * b.period + b.since
      ≤ b.tokens * b.period + (request b now).0.since
  request-paid =
      let k = min ((now - b.since) / b.period) b.batch in
      let (tokens, since, period, size, batch) = take_one-paid (fill b now) in
      let e : grants (request b now).1 + (request b now).0.tokens ≡ (fill b now).tokens =
        omega arith in
      let few = scale b.period (min (b.tokens + k) b.size) b.tokens k (omega arith) in
      rw (e, since) (omega (arith, few))
