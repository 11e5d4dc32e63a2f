-- ===== src/Prelude/History.antt =====
-- The answers to a series of calls, and the clock's readings at them.
use Prim.Native.Nat.{ℕ, ◌+◌, ◌≤◌}
use mathlib.Core.Bool.{Bool, true, false}
use mathlib.Core.List.{List, [], ◌∷◌}
use native.Mathlib.Omega.{arith}

abbrev pub grants : Bool → ℕ
grants true = 1
grants false = 0

abbrev pub granted : List Bool → ℕ
granted [] = 0
granted (b ∷ bs) = grants b + granted bs

-- Times that do not go back, from `now` to at most `end`.
abbrev pub Rising : ℕ → List ℕ → ℕ → Type 0
Rising now [] end = now ≤ end
Rising now (t ∷ ts) end = (now ≤ t) × Rising t ts end

pub Rising-le : (now end : ℕ) (ts : List ℕ) → Rising now ts end → now ≤ end
Rising-le now end [] r = r
Rising-le now end (t ∷ ts) r = omega (arith, Rising-le t end ts r.1)
