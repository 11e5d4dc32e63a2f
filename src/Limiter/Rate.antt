-- ===== src/Limiter/Rate.antt =====
-- How many requests the limiter grants.
use native.Mathlib.Nat.{add-mul, zero-mul, mul-le-mul_right}
use native.Mathlib.Decide.{dec_le}
use klayengo.Prelude.{ℕ, ◌+◌, ◌-◌, ◌*◌, ◌≤◌, ◌≡◌, ap, arith}
use klayengo.Limiter.Bucket.{Bucket}

-- The bucket of a new limiter.
abbrev full : ℕ → ℕ → ℕ → Bucket
full size period start = record { tokens = size; size = size; period = period; since = start }

pub scale : (p a b c : ℕ) → a ≤ b + c → a * p ≤ b * p + c * p
scale p a b c h = rw (← add-mul b c p) (mul-le-mul_right p h)

-- A first request of `g` and later ones of `n`, paid for one after the other.
pub join :
    (p g n a b s t e : ℕ)
    → (g + b) * p + s ≤ a * p + t
    → n * p + t ≤ b * p + e
    → (g + n) * p + s ≤ a * p + e
join p g n a b s t e h k = omega arith

pub excess : (p g m s e : ℕ) → g * p + s ≤ m * p + e → s ≤ e → (g - m) * p ≤ e - s
excess p g m s e h le = elim (dec_le g m) [
  | yes few ↦ let none_over : g - m ≡ 0 = omega arith in rw (none_over, zero-mul) (omega arith)
  | no more ↦
      let split : g ≡ m + (g - m) = omega arith in
      omega (arith, ap (λ (x : ℕ). x * p) split, add-mul m (g - m) p)
]
