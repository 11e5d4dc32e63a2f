-- ===== src/Limiter/Optimized/Examples.antt =====
-- The theorem on the optimized limiter, at a concrete history.
use Prim.Native.Nat.{max}
use klayengo.Prelude.{◌≡◌, refl, List, [], ◌∷◌, arith, ◌≤◌, ◌+◌, ◌-◌, ◌/◌}
use klayengo.Prelude.Int.{pos}
use klayengo.Prelude.Int64.{add64, sub64, mul64, div64}
use klayengo.Limiter.Optimized.{
  Call, allows, allows_n, sets_rate, step, run, new_optimized_rate_limiter, allow, allow_n,
  set_rate,
}
use klayengo.Prelude.History.{granted}
use klayengo.Limiter.Optimized.Rate.{answers, granted-batched_bounded}
use klayengo.Limiter.Optimized.Tokens.{InBucket, run-new-InBucket}

abbrev history : List Call
history = allows_n (pos 2) (pos 1) ∷ allows (pos 14) ∷ sets_rate (pos 40) ∷ []

run-new-InBucket_example :
    InBucket (run (new_optimized_rate_limiter (pos 2) (pos 20) (pos 0)) history)
run-new-InBucket_example =
    run-new-InBucket (pos 2) (pos 20) (pos 0) history (omega arith) (omega arith) (omega arith)
      (omega arith) (omega arith)

-- A token comes back after 10 ns, and is used.
one_token : (run (new_optimized_rate_limiter (pos 2) (pos 20) (pos 0)) history).tokens ≡ pos 0
unfolding run step new_optimized_rate_limiter allow allow_n set_rate add64 sub64 mul64 div64
one_token = refl

granted-batched_bounded_example :
    granted (answers (new_optimized_rate_limiter (pos 2) (pos 20) (pos 0)) (1 ∷ 2 ∷ 3 ∷ 14 ∷ []))
    ≤ 2 + (15 - 0) / max 1 (20 / 2)
granted-batched_bounded_example =
    granted-batched_bounded 2 20 0 15 (1 ∷ 2 ∷ 3 ∷ 14 ∷ []) (omega arith) (omega arith)
      (omega arith) (omega arith) (omega arith)

-- The bound is reached: two tokens at first, and one after 10 ns.
bound_reached :
    granted (answers (new_optimized_rate_limiter (pos 2) (pos 20) (pos 0)) (1 ∷ 2 ∷ 3 ∷ 14 ∷ []))
    ≡ 3
unfolding new_optimized_rate_limiter allow add64 sub64 mul64 div64
bound_reached = refl
