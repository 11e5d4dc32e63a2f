-- ===== src/Budget/Examples.antt =====
-- The theorems on the retry budget at concrete budgets.
use klayengo.Prelude.{◌+◌, ◌-◌, ◌*◌, ◌/◌, ◌≤◌, ◌≡◌, refl, true, [], ◌∷◌, map, arith}
use klayengo.Prelude.Int.{pos}
use klayengo.Prelude.History.{granted}
use klayengo.Budget.{new_retry_budget, allow, get_stats, run}
use klayengo.Budget.Window.{
  Quota, IsValid, budget, renew, take_one, request, allow-budget, granted-budget_bounded,
}

abbrev spent_quota : Quota
spent_quota = record { quota = 2; width = 10; used = 2; start = 5 }

allow-budget_example :
    (allow (budget spent_quota) (pos 15)
      ≡ (budget (request spent_quota 15).0, (request spent_quota 15).1))
    × IsValid (request spent_quota 15).0 15
allow-budget_example = allow-budget spent_quota 15 (omega arith)

-- The window has passed, so the count starts again.
request_renews :
    request spent_quota 15 ≡ (record { quota = 2; width = 10; used = 1; start = 15 }, true)
unfolding renew take_one
request_renews = refl

stats_follow : get_stats (budget (request spent_quota 15).0) ≡ (pos 1, pos 2, pos 15)
unfolding get_stats renew take_one
stats_follow = refl

granted-budget_bounded_example :
    granted (run (new_retry_budget (pos 2) (pos 10) (pos 0)) (map pos (1 ∷ 2 ∷ 3 ∷ 14 ∷ []))).1
    ≤ 2 + 2 * (15 - 0) / 10
granted-budget_bounded_example =
    granted-budget_bounded 2 10 0 15 (1 ∷ 2 ∷ 3 ∷ 14 ∷ []) (omega arith) (omega arith) (omega arith)
      (omega arith)
