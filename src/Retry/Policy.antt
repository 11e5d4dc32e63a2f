-- ===== src/Retry/Policy.antt =====
-- When the default policy retries, and after which delay.
use klayengo.Prelude.{
  ◌≡◌, refl, ◌↔◌, ◌⊎◌, inl, inr, Bool-cases, Bool, true, false, String, Option, none, some, arith,
}
use klayengo.Prelude.Int.{ℤ, pos, ◌≤ℤ◌, ◌<ℤ◌, leb_ℤ}
use klayengo.Http.{Response, header_get}
use klayengo.Errors.{Error}
use klayengo.Backoff.{Float}
use klayengo.Backoff.Bounds.{calculate_backoff-le-max}
use klayengo.Retry.{
  hour, DefaultRetryPolicy, retryable_status, allows_method, wish, answer_for, should_retry,
}
use klayengo.Retry.Delay.{parse_retry_after-le}

-- What an attempt ended with: an error, or a response that may be tried again.
abbrev pub failed : Option Response → Option Error → Bool
failed resp (some err) = true
failed none none = false
failed (some resp) none = retryable_status resp.status_code

-- Whether the policy asks for a retry.
abbrev pub retries : Option (ℤ × Bool) → Bool
retries none = false
retries (some (delay, again)) = again

-- The delay that the policy gives, which is zero where it faults.
abbrev pub delay_of : Option (ℤ × Bool) → ℤ
delay_of none = pos 0
delay_of (some (delay, again)) = delay

module _ (f : Float) (parse_time : String → Option ℤ) where
  wish-wanted :
      (resp : Option Response) (err : Option Error) (now : ℤ)
      → (wish f parse_time resp err now).1 ≡ failed resp err
  unfolding wish
  wish-wanted resp (some err) now = refl
  wish-wanted none none now = refl
  wish-wanted (some resp) none now = ground arith

  wish-le :
      (resp : Option Response) (err : Option Error) (now : ℤ)
      → (wish f parse_time resp err now).0 ≤ℤ hour
  unfolding wish
  wish-le resp (some err) now = omega arith
  wish-le none none now = omega arith
  wish-le (some resp) none now =
      ground (arith, parse_retry_after-le parse_time (header_get "Retry-After" resp.header) now)

  module _ (p : DefaultRetryPolicy f) (resp : Option Response) (err : Option Error)
      (attempt now : ℤ) (r : f.float64) where
    answer_iff :
        (allowed : Option Bool)
        → (retries (answer_for f parse_time p allowed resp err attempt now r) ≡ true)
          ↔ ((allowed ≡ some true) × (failed resp err ≡ true))
    unfolding answer_for
    answer_iff none = (λ h. ground (arith, h), λ h. ground (arith, h))
    answer_iff (some false) = (λ h. ground (arith, h), λ h. ground (arith, h))
    answer_iff (some true) = (
      λ h. ground (arith, h, wish-wanted resp err now),
      λ h. ground (arith, h, wish-wanted resp err now),
    )

    answer_faults :
        (allowed : Option Bool)
        → (answer_for f parse_time p allowed resp err attempt now r ≡ none) ↔ (allowed ≡ none)
    unfolding answer_for
    answer_faults none = (λ h. refl, λ h. refl)
    answer_faults (some false) = (λ h. absurd (cc (h)), λ h. absurd (cc (h)))
    answer_faults (some true) = (λ h. ground (arith, h), λ h. absurd (cc (h)))

    -- The default policy retries exactly when attempts are left, the attempt ended with an error or
    -- with status 429 or at least 500, and there is no response or one to an idempotent method; so an
    -- error without a response is retried for every method. It faults exactly when attempts are left
    -- and there is a response without its request.
    pub should_retry_iff :
        ((retries (should_retry f parse_time p resp err attempt now r) ≡ true) ↔ (
          (attempt <ℤ p.max_retries)
          × (allows_method p.is_idempotent resp ≡ some true)
          × (failed resp err ≡ true)))
        × ((should_retry f parse_time p resp err attempt now r ≡ none)
            ↔ ((attempt <ℤ p.max_retries) × (allows_method p.is_idempotent resp ≡ none)))
    unfolding should_retry
    should_retry_iff =
        let allowed = allows_method p.is_idempotent resp in
        elim (Bool-cases (leb_ℤ p.max_retries attempt)) [
          | inl e ↦ (
            (λ h. ground (arith, h, e), λ h. ground (arith, h, e)),
            (λ h. ground (arith, h, e), λ h. ground (arith, h, e)),
          )
          | inr e ↦ (
            (
              λ h. ground (arith, h, e, answer_iff allowed),
              λ h. ground (arith, h, e, answer_iff allowed),
            ),
            (
              λ h. ground (arith, h, e, answer_faults allowed),
              λ h. ground (arith, h, e, answer_faults allowed),
            ),
          )
        ]

    answer_for-le :
        (allowed : Option Bool)
        → f.lt (f.of_int (pos 1)) (f.of_int (pos 0)) ≡ false
        → p.settings.initial_backoff ≤ℤ p.settings.max_backoff
        → (delay_of (answer_for f parse_time p allowed resp err attempt now r) ≤ℤ hour)
          ⊎ (delay_of (answer_for f parse_time p allowed resp err attempt now r)
              ≤ℤ p.settings.max_backoff)
    unfolding answer_for
    answer_for-le none ordered h = inl (omega arith)
    answer_for-le (some false) ordered h = inl (omega arith)
    answer_for-le (some true) ordered h =
        ground
          (arith, wish-le resp err now, calculate_backoff-le-max f ordered p.settings attempt r h)

    -- The delay is at most an hour or at most `maxBackoff`, provided that `initialBackoff` is at most
    -- `maxBackoff` and that 1 < 0 is false for float64.
    pub should_retry-le :
        f.lt (f.of_int (pos 1)) (f.of_int (pos 0)) ≡ false
        → p.settings.initial_backoff ≤ℤ p.settings.max_backoff
        → (delay_of (should_retry f parse_time p resp err attempt now r) ≤ℤ hour)
          ⊎ (delay_of (should_retry f parse_time p resp err attempt now r)
              ≤ℤ p.settings.max_backoff)
    unfolding should_retry
    should_retry-le ordered h =
        ground (arith, answer_for-le (allows_method p.is_idempotent resp) ordered h)
