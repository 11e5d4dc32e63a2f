-- ===== src/Client/Attempts/Decisions.antt =====
-- The exchanges before and after the retry decision of `doWithRetry` (client.go).
use klayengo.Prelude.{ℕ, ◌≤◌, ◌≡◌, refl, Bool, true, false, Option, none, some, arith}
use klayengo.Prelude.Int.{ℤ, ltb_ℤ}
use klayengo.Http.{Response}
use klayengo.Errors.{Error}
use klayengo.Backoff.{Float}
use klayengo.Client.{
  Exchange, Env, Config, State, Decision, give_up, retry_after, broken, RetryPolicy, answer_of,
  legacy_if, decide_by, decide_legacy, decide,
}

module _ (f : Float) (env : Env f) (c : Config f env) (sent : env.World → ℕ)
    (sent-random : (w : env.World) → sent (env.random w).1 ≡ sent w)
    (sent-policy : (policy : Option Response
        → Option Error
        → ℤ
        → env.World
        → Option (ℤ × Bool) × env.World)
      → c.retry_policy ≡ some policy
      → (resp : Option Response) (err : Option Error) (attempt : ℤ) (w : env.World)
      → sent (policy resp err attempt w).1 ≡ sent w) where
  -- The exchanges that a decision has seen are at most `k`.
  abbrev pub After : ℕ → Decision f env → Type 0
  After k (give_up s) = sent s.world ≤ k
  After k (retry_after d s) = sent s.world ≤ k
  After k broken = ℕ

  answer_of-After :
      (answer : Option (ℤ × Bool)) (s : State f env) (k : ℕ)
      → sent s.world ≤ k
      → After k (answer_of f env answer s)
  unfolding answer_of
  answer_of-After none s k h = 0
  answer_of-After (some (delay, true)) s k h = h
  answer_of-After (some (delay, false)) s k h = h

  decide_legacy-After :
      (b : Option Bool) (attempt : ℤ) (s : State f env) (k : ℕ)
      → sent s.world ≤ k
      → After k (decide_legacy f env c b attempt s)
  unfolding decide_legacy
  decide_legacy-After none attempt s k h = 0
  decide_legacy-After (some false) attempt s k h = h
  decide_legacy-After (some true) attempt s k h = omega (arith, sent-random s.world)

  legacy_if-After :
      (b : Bool) (ex : Exchange) (attempt : ℤ) (s : State f env) (k : ℕ)
      → sent s.world ≤ k
      → After k (legacy_if f env b c ex attempt s)
  unfolding legacy_if
  legacy_if-After false ex attempt s k h = h
  legacy_if-After true ex attempt s k h = decide_legacy-After _ attempt s k h

  decide_by-After :
      (p : Option (RetryPolicy f env)) (ex : Exchange) (attempt : ℤ) (s : State f env) (k : ℕ)
      → c.retry_policy ≡ p
      → sent s.world ≤ k
      → After k (decide_by f env p c ex attempt s)
  unfolding decide_by
  decide_by-After none ex attempt s k e h =
      legacy_if-After (ltb_ℤ attempt c.max_retries) ex attempt s k h
  decide_by-After (some policy) ex attempt s k e h =
      answer_of-After _ _ k (omega (arith, sent-policy policy e ex.0 ex.1 attempt s.world))

  pub decide-After :
      (ex : Exchange) (attempt : ℤ) (s : State f env) (k : ℕ)
      → sent s.world ≤ k
      → After k (decide f env c ex attempt s)
  unfolding decide
  decide-After ex attempt s k h = decide_by-After c.retry_policy ex attempt s k refl h
