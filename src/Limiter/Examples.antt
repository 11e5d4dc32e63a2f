-- ===== src/Limiter/Examples.antt =====
-- The theorems on the rate limiter at concrete limiters.
use klayengo.Prelude.{◌≡◌, refl, true, [], ◌∷◌, map, arith}
use klayengo.Prelude.Int.{pos}
use klayengo.Prelude.History.{granted}
use klayengo.Prelude.Int64.{add64, sub64, div64}
use klayengo.Limiter.{new_rate_limiter, allow, run}
use klayengo.Limiter.Bucket.{Bucket, IsValid, limiter, refill, take_one, request, allow-limiter}

abbrev low : Bucket
low = record { tokens = 1; size = 3; period = 10; since = 100 }

allow-limiter_example :
    (allow (limiter low) (pos 125) ≡ (limiter (request low 125).0, (request low 125).1))
    × IsValid (request low 125).0 125
allow-limiter_example = allow-limiter low 125 (omega arith)

-- Two periods have passed: two tokens more, and one is used.
request_refills :
    request low 125 ≡ (record { tokens = 2; size = 3; period = 10; since = 120 }, true)
unfolding refill take_one
request_refills = refl

bound_reached :
    granted (run (new_rate_limiter (pos 2) (pos 10) (pos 0)) (map pos (1 ∷ 2 ∷ 3 ∷ 14 ∷ []))).1 ≡ 3
unfolding run allow new_rate_limiter div64 sub64 add64
bound_reached = refl
