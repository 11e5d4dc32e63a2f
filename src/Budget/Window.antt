-- ===== src/Budget/Window.antt =====
-- The retry budget refines a quota over the natural numbers, and so bounds the retries.
use klayengo.Prelude.{
  ℕ, suc, ◌+◌, ◌-◌, ◌*◌, ◌/◌, ◌≤◌, ◌<◌, ◌≡◌, sym, ap, subst, Bool, true, false, ltb, leb,
  if◌then◌else◌, List, [], ◌∷◌, map, arith,
}
use native.Mathlib.Nat.{le-div_iff_mul-le, mul-le-mul_left, add-mul-div_left}
use klayengo.Prelude.Int.{pos}
use klayengo.Prelude.Int64.{add64, sub64}
use klayengo.Prelude.History.{grants, granted, Rising, Rising-le}
use klayengo.Budget.{RetryBudget, new_retry_budget, allow, roll, spend, run}

-- The specification: at most `quota` grants for each window of length `width`.
pub record Quota : Type 0 where
  pub quota : ℕ
  pub width : ℕ
  pub used : ℕ
  pub start : ℕ

unfoldable pub renew : Quota → ℕ → Quota
renew q now = if leb q.width (now - q.start) then record q { start = now; used = 0 } else q

unfoldable pub take_one : Quota → Quota × Bool
take_one q = if ltb q.used q.quota then (record q { used = q.used + 1 }, true) else (q, false)

abbrev pub request : Quota → ℕ → Quota × Bool
request q now = take_one (renew q now)

abbrev pub budget : Quota → RetryBudget
budget q = record {
  max_retries = pos q.quota;
  per_window = pos q.width;
  window = pos q.width;
  current = pos q.used;
  window_start = pos q.start;
}

pub record IsValid (q : Quota) (now : ℕ) : Type 0 where
  pub within : q.used ≤ q.quota
  pub past : q.start ≤ now
  pub quota_range : q.quota < 9223372036854775808
  pub now_range : now < 9223372036854775808

roll-budget :
    (q : Quota) (now : ℕ) → IsValid q now → roll (budget q) (pos now) ≡ budget (renew q now)
unfolding roll renew sub64
roll-budget q now v = ground arith

spend-budget :
    (q : Quota) (now : ℕ)
    → IsValid q now
    → spend (budget q) ≡ (budget (take_one q).0, (take_one q).1)
unfolding spend take_one add64
spend-budget q now v = ground arith

renew-IsValid : (q : Quota) (now : ℕ) → IsValid q now → IsValid (renew q now) now
unfolding renew
renew-IsValid q now v = ground arith

take_one-IsValid : (q : Quota) (now : ℕ) → IsValid q now → IsValid (take_one q).0 now
unfolding take_one
take_one-IsValid q now v = ground arith

-- From a quota that is valid at the time of the call, `Allow` gives the answer and the next state
-- of the quota's request, and that state is valid.
pub allow-budget :
    (q : Quota) (now : ℕ)
    → IsValid q now
    → (allow (budget q) (pos now) ≡ (budget (request q now).0, (request q now).1))
      × IsValid (request q now).0 now
unfolding allow
allow-budget q now v =
    let w = renew-IsValid q now v in
    (
      subst (λ b. spend b ≡ (budget (request q now).0, (request q now).1))
          (sym (roll-budget q now v)) (spend-budget (renew q now) now w),
      take_one-IsValid (renew q now) now w,
    )

-- What is left of the quota, and a quota for each window that fits, in units of the width.
abbrev credit : Quota → ℕ → ℕ
credit q end = (q.quota - q.used) * q.width + q.quota * (end - q.start)

fresh_window : (c w u d e : ℕ) → w + d ≤ e → (c - 0) * w + c * d ≤ (c - u) * w + c * e
fresh_window c w u d e h =
    let more = mul-le-mul_left c h in
    let whole : c - 0 ≡ c = omega arith in rw whole (omega (arith, more))

one_less : (c w u x : ℕ) → u < c → 1 * w + ((c - (u + 1)) * w + x) ≤ (c - u) * w + x
one_less c w u x h =
    let e : c - u ≡ suc (c - (u + 1)) = omega arith in omega (arith, ap (λ (n : ℕ). n * w) e)

renew-credit :
    (q : Quota) (now end : ℕ) → IsValid q now → now ≤ end → credit (renew q now) end ≤ credit q end
unfolding renew
renew-credit q now end v h =
    ground (arith, fresh_window q.quota q.width q.used (end - now) (end - q.start))

take_one-credit :
    (q : Quota) (end : ℕ)
    → grants (take_one q).1 * q.width + credit (take_one q).0 end ≤ credit q end
unfolding take_one
take_one-credit q end = ground (arith, one_less q.quota q.width q.used (q.quota * (end - q.start)))

request-fixed :
    (q : Quota) (now : ℕ)
    → ((request q now).0.quota ≡ q.quota)
      × ((request q now).0.width ≡ q.width)
      × ((renew q now).width ≡ q.width)
unfolding renew take_one
request-fixed q now = ground arith

spent : (w g n a b c : ℕ) → n * w ≤ a → g * w + a ≤ b → b ≤ c → (g + n) * w ≤ c
spent w g n a b c h k l = omega arith

run-credit :
    (q : Quota) (now end : ℕ) (ts : List ℕ)
    → IsValid q now
    → end < 9223372036854775808
    → Rising now ts end
    → granted (run (budget q) (map pos ts)).1 * q.width ≤ credit q end
unfolding run
run-credit q now end [] v r h = omega arith
run-credit q now end (t ∷ ts) v r h =
    let later = Rising-le t end ts h.1 in
    let w : IsValid q t = omega arith in
    let (e, next) = allow-budget q t w in
    let q' = (request q t).0 in
    let (same_quota, same_width, mid_width) = request-fixed q t in
    let rest = granted (run (budget q') (map pos ts)).1 in
    let later_ones : rest * q.width ≤ credit q' end =
      subst (λ x. rest * x ≤ credit q' end) same_width (run-credit q' t end ts next r h.1) in
    let first : grants (request q t).1 * q.width + credit q' end ≤ credit (renew q t) end =
      subst (λ x. grants (request q t).1 * x + credit q' end ≤ credit (renew q t) end) mid_width
        (take_one-credit (renew q t) end) in
    subst (λ p. (grants p.1 + granted (run p.0 (map pos ts)).1) * q.width ≤ credit q end) (sym e)
      (spent q.width (grants (request q t).1) rest (credit q' end) (credit (renew q t) end)
        (credit q end) later_ones first (renew-credit q t end w later))

abbrev full : ℕ → ℕ → ℕ → Quota
full quota width start = record { quota = quota; width = width; used = 0; start = start }

zero_used : (c w : ℕ) → (c - 0) * w ≡ w * c
zero_used c w = let e : c - 0 ≡ c = omega arith in rw e (omega arith)

-- A new budget of `quota` retries per `width` allows, in any history of calls whose clock readings
-- start at its creation, do not go back and end by `end`, at most `quota` retries and, rounded down,
-- a quota for each width of the time passed, provided that the width is positive and that `quota`
-- and `end` are int64 values.
pub granted-budget_bounded :
    (quota width start end : ℕ) (ts : List ℕ)
    → 0 < width
    → quota < 9223372036854775808
    → end < 9223372036854775808
    → Rising start ts end
    → granted (run (new_retry_budget (pos quota) (pos width) (pos start)) (map pos ts)).1
      ≤ quota + quota * (end - start) / width
unfolding new_retry_budget
granted-budget_bounded quota width start end ts p c r h =
    let q = full quota width start in
    let g = granted (run (budget q) (map pos ts)).1 in
    let total = quota * (end - start) in
    let paid = run-credit q start end ts (omega (arith, Rising-le start end ts h)) r h in
    let few : g ≤ (total + width * quota) / width =
      (le-div_iff_mul-le p).1 (omega (arith, paid, zero_used quota width)) in
    omega (arith, few, add-mul-div_left total quota p)
