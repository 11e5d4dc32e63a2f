-- ===== src/Prelude/Int64.antt =====
-- Go's int64: an integer in range, and arithmetic that wraps around.
use Prim.Native.Nat.{ℕ, ◌+◌, ◌-◌, ◌/◌, ◌%◌, ◌≤◌, ◌<◌}
use mathlib.Core.Path.{◌≡◌, refl}
use native.Mathlib.Omega.{arith}
use klayengo.Prelude.Tests.{ltb, if◌then◌else◌}
use klayengo.Prelude.Int.{ℤ, pos, negsuc, pos_part, neg_part, sub_ℕ, ◌+ℤ◌, ◌-ℤ◌, ◌*ℤ◌}

-- The residue modulo 2^64.
residue64 : ℤ → ℕ
residue64 (pos n) = n % 18446744073709551616
residue64 (negsuc n) = 18446744073709551615 - n % 18446744073709551616

signed64 : ℕ → ℤ
signed64 r = if ltb r 9223372036854775808 then pos r else negsuc (18446744073709551615 - r)

unfoldable pub wrap64 : ℤ → ℤ
unfolding residue64 signed64
wrap64 z = signed64 (residue64 z)

unfoldable pub add64 : ℤ → ℤ → ℤ
unfolding wrap64 ◌+ℤ◌
add64 a b = wrap64 (a +ℤ b)

unfoldable pub sub64 : ℤ → ℤ → ℤ
unfolding wrap64 ◌-ℤ◌
sub64 a b = wrap64 (a -ℤ b)

unfoldable pub mul64 : ℤ → ℤ → ℤ
unfolding wrap64 ◌*ℤ◌
mul64 a b = wrap64 (a *ℤ b)

-- Go's division truncates towards zero. The code divides by positive values only.
unfoldable pub div64 : ℤ → ℤ → ℤ
unfolding wrap64
div64 a b = wrap64 (
    sub_ℕ (pos_part a / pos_part b + neg_part a / neg_part b)
      (pos_part a / neg_part b + neg_part a / pos_part b))

abbrev pub InRange64 : ℤ → Type 0
InRange64 z = (pos_part z < 9223372036854775808) × (neg_part z ≤ 9223372036854775808)

pub wrap64_of_InRange64 : (z : ℤ) → InRange64 z → wrap64 z ≡ z
unfolding wrap64 residue64 signed64
wrap64_of_InRange64 z h = ground arith

-- Every result is in range.
pub wrap64-InRange64 : (z : ℤ) → InRange64 (wrap64 z)
unfolding wrap64 residue64 signed64
wrap64-InRange64 z = ground arith

pub add64_exact : (a b : ℤ) → InRange64 (a +ℤ b) → add64 a b ≡ a +ℤ b
unfolding add64
add64_exact a b h = wrap64_of_InRange64 (a +ℤ b) h

pub sub64_exact : (a b : ℤ) → InRange64 (a -ℤ b) → sub64 a b ≡ a -ℤ b
unfolding sub64
sub64_exact a b h = wrap64_of_InRange64 (a -ℤ b) h

pub mul64_exact : (a b : ℤ) → InRange64 (a *ℤ b) → mul64 a b ≡ a *ℤ b
unfolding mul64
mul64_exact a b h = wrap64_of_InRange64 (a *ℤ b) h

-- The difference kept within the int64 values, as `time.Time.Sub` gives it.
unfoldable pub saturating_sub64 : ℤ → ℤ → ℤ
unfolding ◌-ℤ◌
saturating_sub64 a b =
    let d = a -ℤ b in
    if ltb 9223372036854775807 (pos_part d)
    then pos 9223372036854775807
    else if ltb 9223372036854775808 (neg_part d)
    then negsuc 9223372036854775807
    else d

pub add64_pos : (a b : ℕ) → a + b < 9223372036854775808 → add64 (pos a) (pos b) ≡ pos (a + b)
unfolding add64
add64_pos a b h = ground arith

pub sub64_pos : (a b : ℕ) → b ≤ a → a < 9223372036854775808 → sub64 (pos a) (pos b) ≡ pos (a - b)
unfolding sub64
sub64_pos a b le h = ground arith

wraps_around : add64 (pos 9223372036854775807) (pos 1) ≡ negsuc 9223372036854775807
unfolding add64
wraps_around = refl

truncates : div64 (negsuc 6) (pos 2) ≡ negsuc 2
unfolding div64
truncates = refl
