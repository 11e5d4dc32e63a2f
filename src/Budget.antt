-- ===== src/Budget.antt =====
-- The retry budget of retry_policy.go (type in types.go), one call at a time: a fixed window.
pub mod Window
mod Examples
use klayengo.Prelude.{Bool, true, false, if◌then◌else◌, List, [], ◌∷◌}
use klayengo.Prelude.Int.{ℤ, pos, leb_ℤ}
use klayengo.Prelude.Int64.{add64, sub64}

pub record RetryBudget : Type 0 where
  pub max_retries : ℤ
  pub per_window : ℤ
  pub window : ℤ
  pub current : ℤ
  pub window_start : ℤ

unfoldable pub new_retry_budget : ℤ → ℤ → ℤ → RetryBudget
new_retry_budget max_retries per_window now = record {
  max_retries = max_retries;
  per_window = per_window;
  window = per_window;
  current = pos 0;
  window_start = now;
}

-- A window that has passed is reset.
roll : RetryBudget → ℤ → RetryBudget
roll rb now =
    if leb_ℤ rb.per_window (sub64 now rb.window_start)
    then record rb { window_start = now; current = pos 0 }
    else rb

spend : RetryBudget → RetryBudget × Bool
spend rb =
    if leb_ℤ rb.max_retries rb.current
    then (rb, false)
    else (let next = add64 rb.current (pos 1) in
        (record rb { current = next }, leb_ℤ next rb.max_retries))

unfoldable pub allow : RetryBudget → ℤ → RetryBudget × Bool
unfolding roll spend
allow rb now = spend (roll rb now)

-- The current count, the maximum and the start of the window.
unfoldable pub get_stats : RetryBudget → ℤ × ℤ × ℤ
get_stats rb = (rb.current, rb.max_retries, rb.window_start)

-- Calls of `Allow` at the given times: the budget at the end, and the answers.
unfoldable pub run : RetryBudget → List ℤ → RetryBudget × List Bool
run rb [] = (rb, [])
run rb (now ∷ ts) =
    let (rb', granted) = allow rb now in
    let (last, answers) = run rb' ts in (last, granted ∷ answers)
