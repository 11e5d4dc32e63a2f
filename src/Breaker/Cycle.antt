-- ===== src/Breaker/Cycle.antt =====
-- The life of a circuit breaker: it trips, refuses, probes and closes again.
use klayengo.Prelude.{
  ℕ, zero, suc, ◌+◌, ◌<◌, ◌≡◌, refl, sym, ap, subst, Bool, false, true, List, [], ◌∷◌, ◌++◌, All,
  replicate, arith,
}
use klayengo.Prelude.Int.{ℤ, pos, pos_part, neg_part, ◌≤ℤ◌, ◌<ℤ◌, ◌+ℤ◌, +ℤ_parts, -ℤ_parts}
use klayengo.Prelude.Int64.{add64, sub64, InRange64, sub64_exact}
use klayengo.Breaker.{
  CircuitBreaker, state_closed, state_open, state_half_open, allow, record_failure, record_success,
  Call, allows, fails, succeeds, step, run,
}
use klayengo.Breaker.Invariant.{IsUsable}

-- How many of the calls record a failure.
abbrev pub count_fails : List Call → ℕ
count_fails [] = 0
count_fails (allows now ∷ cs) = count_fails cs
count_fails (fails now ∷ cs) = suc (count_fails cs)
count_fails (succeeds ∷ cs) = count_fails cs

-- The answers to the `Allow` calls of a history, in order.
unfoldable pub answers : CircuitBreaker → List Call → List Bool
answers cb [] = []
answers cb (allows now ∷ cs) = (allow cb now).1 ∷ answers (allow cb now).0 cs
answers cb (fails now ∷ cs) = answers (record_failure cb now) cs
answers cb (succeeds ∷ cs) = answers (record_success cb) cs

add_one_pos : (k : ℕ) → suc k < 9223372036854775808 → add64 (pos k) (pos 1) ≡ pos (suc k)
unfolding add64
add_one_pos k h = ground arith

allow_closed : (cb : CircuitBreaker) (now : ℤ) → cb.state ≡ state_closed → (allow cb now).0 ≡ cb
unfolding allow
allow_closed cb now s = ground arith

record_success_closed : (cb : CircuitBreaker) → cb.state ≡ state_closed → record_success cb ≡ cb
unfolding record_success
record_success_closed cb s = ground arith

module _ (cb : CircuitBreaker) (k : ℕ) (now : ℤ) (u : IsUsable cb.config)
    (s : cb.state ≡ state_closed) (f : cb.failures ≡ pos k) where
  record_failure_below :
      pos (suc k) <ℤ cb.config.failure_threshold
      → record_failure cb now ≡ record cb { last_failure = now; failures = pos (suc k) }
  unfolding record_failure
  record_failure_below h = ground (arith, add_one_pos k)

  record_failure_trips :
      pos (suc k) ≡ cb.config.failure_threshold
      → record_failure cb now
        ≡ record cb { last_failure = now; failures = pos (suc k); state = state_open }
  unfolding record_failure
  record_failure_trips h = ground (arith, add_one_pos k)

-- Below the threshold every failure is counted, and nothing else happens.
closed_counts :
    (cb : CircuitBreaker) (k : ℕ) (cs : List Call)
    → IsUsable cb.config
    → cb.state ≡ state_closed
    → cb.failures ≡ pos k
    → pos (k + count_fails cs) <ℤ cb.config.failure_threshold
    → ((run cb cs).state ≡ state_closed)
      × ((run cb cs).failures ≡ pos (k + count_fails cs))
      × ((run cb cs).config ≡ cb.config)
unfolding run step
closed_counts cb k [] u s f h = ground arith
closed_counts cb k (allows now ∷ cs) u s f h =
    rw (run, allow_closed cb now s) (closed_counts cb k cs u s f h)
closed_counts cb k (fails now ∷ cs) u s f h =
    let e = record_failure_below cb k now u s f (omega arith) in
    let n = record cb { last_failure = now; failures = pos (suc k) } in
    rw (run, e) (ground (arith, closed_counts n (suc k) cs u s refl))
closed_counts cb k (succeeds ∷ cs) u s f h =
    rw (run, record_success_closed cb s) (closed_counts cb k cs u s f h)

run-append : (cb : CircuitBreaker) (cs ds : List Call) → run cb (cs ++ ds) ≡ run (run cb cs) ds
unfolding run
run-append cb [] ds = refl
run-append cb (c ∷ cs) ds = run-append (step cb c) cs ds

-- A closed breaker that has counted `k` failures and has positive int64 thresholds stays closed
-- through any history in which the failures do not reach the threshold, whatever successes lie
-- between them; the failure that reaches it opens the breaker and sets its `lastFailure`.
pub run-trips :
    (cb : CircuitBreaker) (k : ℕ) (cs : List Call) (now : ℤ)
    → IsUsable cb.config
    → cb.state ≡ state_closed
    → cb.failures ≡ pos k
    → pos (suc (k + count_fails cs)) ≡ cb.config.failure_threshold
    → ((run cb cs).state ≡ state_closed)
      × ((run cb (cs ++ fails now ∷ [])).state ≡ state_open)
      × ((run cb (cs ++ fails now ∷ [])).last_failure ≡ now)
unfolding run step
run-trips cb k cs now u s f h =
    let (st, fl, cf) = closed_counts cb k cs u s f (omega (arith, ap pos_part h, ap neg_part h)) in
    let e = record_failure_trips (run cb cs) (k + count_fails cs) now (rw cf u) st fl (rw cf h) in
    (
      st,
      rw (run-append cb cs (fails now ∷ []), run, e) refl,
      rw (run-append cb cs (fails now ∷ []), run, e) refl,
    )

-- The clock's readings in a history.
abbrev pub ReadingOk : (ℤ → Type 0) → Call → Type 0
ReadingOk P (allows now) = P now
ReadingOk P (fails now) = P now
ReadingOk P succeeds = Unit

-- A reading in the window of length `d` that begins at `t`.
abbrev pub Within : ℤ → ℤ → ℤ → Type 0
Within t d now = (t ≤ℤ now) × (now <ℤ t +ℤ d)

-- Every answer is a refusal.
abbrev pub AllRefused : List Bool → Type 0
AllRefused = All (λ b. b ≡ false)

module _ (t d : ℤ) (range : InRange64 d) where
  allow_early :
      (cb : CircuitBreaker) (now : ℤ)
      → cb.state ≡ state_open
      → cb.config.recovery_timeout ≡ d
      → Within t d cb.last_failure
      → Within t d now
      → allow cb now ≡ (cb, false)
  unfolding allow
  allow_early cb now s e w v =
      ground (arith, sub64_exact now cb.last_failure, -ℤ_parts now cb.last_failure, +ℤ_parts t d)

  record_failure_open :
      (cb : CircuitBreaker) (now : ℤ)
      → cb.state ≡ state_open
      → record_failure cb now ≡ record cb { last_failure = now }
  unfolding record_failure
  record_failure_open cb now s = ground arith

  record_success_open : (cb : CircuitBreaker) → cb.state ≡ state_open → record_success cb ≡ cb
  unfolding record_success
  record_success_open cb s = ground arith

  -- An open breaker whose last failure lies in a window as long as its recovery timeout stays open
  -- and refuses every request of a history whose clock readings all lie in that window, whatever
  -- failures and successes of earlier requests are recorded meanwhile.
  pub answers-open :
      (cb : CircuitBreaker) (cs : List Call)
      → cb.state ≡ state_open
      → cb.config.recovery_timeout ≡ d
      → Within t d cb.last_failure
      → All (ReadingOk (Within t d)) cs
      → ((run cb cs).state ≡ state_open) × AllRefused (answers cb cs)
  unfolding run step answers
  answers-open cb [] s e w v = (s, tt)
  answers-open cb (allows now ∷ cs) s e w v =
      let (st, refused) = answers-open cb cs s e w v.1 in
      subst (λ p. ((run p.0 cs).state ≡ state_open) × AllRefused (p.1 ∷ answers p.0 cs))
        (sym (allow_early cb now s e w v.0)) (st, (refl, refused))
  answers-open cb (fails now ∷ cs) s e w v =
      subst (λ b. ((run b cs).state ≡ state_open) × AllRefused (answers b cs))
        (sym (record_failure_open cb now s))
        (answers-open (record cb { last_failure = now }) cs s e v.0 v.1)
  answers-open cb (succeeds ∷ cs) s e w v =
      subst (λ b. ((run b cs).state ≡ state_open) × AllRefused (answers b cs))
        (sym (record_success_open cb s)) (answers-open cb cs s e w v.1)

module _ (cb : CircuitBreaker) (k : ℕ) (u : IsUsable cb.config) where
  record_success_below :
      cb.state ≡ state_half_open
      → cb.successes ≡ pos k
      → pos (suc k) <ℤ cb.config.success_threshold
      → record_success cb ≡ record cb { successes = pos (suc k) }
  unfolding record_success
  record_success_below s f h = ground (arith, add_one_pos k)

  record_success_closes :
      cb.state ≡ state_half_open
      → cb.successes ≡ pos k
      → pos (suc k) ≡ cb.config.success_threshold
      → record_success cb ≡ record cb { state = state_closed; failures = pos 0; successes = pos 0 }
  unfolding record_success
  record_success_closes s f h = ground (arith, add_one_pos k)

-- A half-open breaker that has counted `k` successes closes at the one that reaches the threshold.
closes_after :
    (cb : CircuitBreaker) (k n : ℕ)
    → IsUsable cb.config
    → cb.state ≡ state_half_open
    → cb.successes ≡ pos k
    → pos (suc (k + n)) ≡ cb.config.success_threshold
    → ((run cb (replicate n succeeds)).state ≡ state_half_open)
      × ((run cb (replicate (suc n) succeeds)).state ≡ state_closed)
      × ((run cb (replicate (suc n) succeeds)).failures ≡ pos 0)
unfolding run step
closes_after cb k zero u s f h =
    let e = record_success_closes cb k u s f (rw (← h) (ground arith)) in
    (s, ap (λ b. b.state) e, ap (λ b. b.failures) e)
closes_after cb k (suc n) u s f h =
    let e = record_success_below cb k u s f (omega (arith, ap pos_part h, ap neg_part h)) in
    subst
      (λ b.
        ((run b (replicate n succeeds)).state ≡ state_half_open)
        × ((run b (replicate (suc n) succeeds)).state ≡ state_closed)
        × ((run b (replicate (suc n) succeeds)).failures ≡ pos 0))
      (sym e)
      (closes_after (record cb { successes = pos (suc k) }) (suc k) n u s refl
        (rw (← h) (ground arith)))

allow_late :
    (cb : CircuitBreaker) (now : ℤ)
    → cb.state ≡ state_open
    → cb.config.recovery_timeout ≤ℤ sub64 now cb.last_failure
    → allow cb now ≡ (record cb { state = state_half_open; successes = pos 0 }, true)
unfolding allow
allow_late cb now s h = ground arith

-- Once the recovery timeout has passed since its last failure, an open breaker with positive int64
-- thresholds admits a request and turns half open; it stays so until the successes reach the
-- threshold `n + 1`, and then closes with its failure count at 0.
pub recovers :
    (cb : CircuitBreaker) (now : ℤ) (n : ℕ)
    → IsUsable cb.config
    → cb.state ≡ state_open
    → cb.config.recovery_timeout ≤ℤ sub64 now cb.last_failure
    → cb.config.success_threshold ≡ pos (suc n)
    → ((allow cb now).1 ≡ true)
      × ((run cb (allows now ∷ replicate n succeeds)).state ≡ state_half_open)
      × ((run cb (allows now ∷ replicate (suc n) succeeds)).state ≡ state_closed)
      × ((run cb (allows now ∷ replicate (suc n) succeeds)).failures ≡ pos 0)
unfolding run step
recovers cb now n u s h t =
    let probing = record cb { state = state_half_open; successes = pos 0 } in
    let e : allow cb now ≡ (probing, true) = allow_late cb now s h in
    let (stays, closes, clears) = closes_after probing 0 n u refl refl (rw t (ground arith)) in
    (
      ap (λ p. p.1) e,
      subst (λ p. (run p.0 (replicate n succeeds)).state ≡ state_half_open) (sym e) stays,
      subst (λ p. (run p.0 (replicate (suc n) succeeds)).state ≡ state_closed) (sym e) closes,
      subst (λ p. (run p.0 (replicate (suc n) succeeds)).failures ≡ pos 0) (sym e) clears,
    )
