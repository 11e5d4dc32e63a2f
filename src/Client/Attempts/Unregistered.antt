-- ===== src/Client/Attempts/Unregistered.antt =====
-- The attempts of a client whose options give a limiter to one key, for requests with another key.
use text.Mathlib.Text.{◌==◌}
use klayengo.Prelude.{
  ℕ, suc, ◌≡◌, refl, ap, ◌∙◌, false, if◌then◌else◌, String, Option, none, some, [], ◌∷◌, arith,
  Option-cases, inl, inr,
}
use klayengo.Prelude.Int.{ℤ, pos}
use klayengo.Prelude.Int64.{add64}
use klayengo.Prelude.Assoc.{lookup, insert}
use klayengo.Http.{Request}
use klayengo.Backoff.{Float}
use klayengo.Limiter
use klayengo.Registry
use klayengo.Registry.{
  LimiterRef, typed_nil, limiter_at, LimiterStore, RateLimiterRegistry, new_rate_limiter_registry,
  register_limiter, or_fallback, get_limiter, allow_ref, allow_with, update,
}
use klayengo.Options.{Kinds, Client, apply_all}
use klayengo.Options.With.{limiter_of, with_limiter_for, with_limiter_key_func}
use klayengo.Client.{Env, Config, State, Call, fault, limiter_allow}
use klayengo.Client.Attempts.{pass_limiter, attempt_once, continue_by, do_with_retry}

module _ (f : Float) (k : Kinds) (key : String) (limiter : LimiterRef)
    (key_func : Request → String) where
  -- The registry of a client with the two options.
  abbrev pub registry_for : Client f k → Option RateLimiterRegistry
  registry_for c =
      elim (apply_all f k (some c)
        (with_limiter_key_func f k (some key_func) ∷ with_limiter_for f k key limiter ∷ [])) [
          | none ↦ none
          | some c' ↦ c'.limiter_registry
        ]

  registry_for-new :
      (c : Client f k)
      → registry_for c
        ≡ some (
            register_limiter
              (new_rate_limiter_registry (some key_func) (limiter_of f k c.rate_limiter))
              key
              limiter)
  unfolding apply_all with_limiter_for with_limiter_key_func new_rate_limiter_registry
      register_limiter
  registry_for-new c = elim (Option-cases c.limiter_registry) [
    | inl h ↦ ground (arith, h)
    | inr (r, h) ↦ ground (arith, h)
  ]

  get_limiter-other :
      (fallback : LimiterRef) (req : Request)
      → (key == key_func req) ≡ false
      → get_limiter
          (register_limiter (new_rate_limiter_registry (some key_func) fallback) key limiter)
          req
        ≡ or_fallback none fallback (key_func req)
  unfolding get_limiter register_limiter new_rate_limiter_registry lookup insert
  get_limiter-other fallback req other =
      ap (λ b. or_fallback (if b then some limiter else none) fallback (key_func req)) other

  module _ (env : Env f) (req : Request) (other : (key == key_func req) ≡ false)
      (store : LimiterStore) (t : ℤ) where
    -- The answer of the limiters to a request with another key is the client's rate limiter's.
    limiter_allow-other :
        (c : Client f k) (rl : Option ℕ)
        → limiter_allow f env (registry_for c) rl store req t
          ≡ allow_with (or_fallback none (limiter_of f k c.rate_limiter) (key_func req)) store t
    unfolding limiter_allow Registry.allow
    limiter_allow-other c rl =
        ap (λ r. limiter_allow f env r rl store req t) (registry_for-new c)
        ∙ ap (λ l. allow_with l store t)
            (get_limiter-other (limiter_of f k c.rate_limiter) req other)

    limiter_allow-nil :
        (c : Client f k) (rl : Option ℕ)
        → c.rate_limiter ≡ none
        → limiter_allow f env (registry_for c) rl store req t ≡ none
    unfolding or_fallback allow_with allow_ref
    limiter_allow-nil c rl h =
        limiter_allow-other c rl
        ∙ ap (λ l. allow_with (or_fallback none (limiter_of f k l) (key_func req)) store t) h

    limiter_allow-default :
        (c : Client f k) (rl : Option ℕ) (p : ℕ)
        → c.rate_limiter ≡ some p
        → limiter_allow f env (registry_for c) rl store req t ≡ (
            let (bucket, granted) = Limiter.allow (store p) t in
            some (update store p bucket, granted, "default"))
    unfolding or_fallback allow_with allow_ref
    limiter_allow-default c rl p h =
        limiter_allow-other c rl
        ∙ ap (λ l. allow_with (or_fallback none (limiter_of f k l) (key_func req)) store t) h

  -- A client without a rate limiter that is made with `WithLimiterKeyFunc` and then `WithLimiterFor`
  -- for one key is a nil dereference at every request with another key: whatever the attempt, the
  -- configuration, the world and the rest of the client's state, the call ends in a fault before
  -- anything is sent, with the clock read once. With a rate limiter the same options make that limiter
  -- decide on such a request, under the key "default".
  pub do_with_retry-unregistered :
      (env : Env f) (config : Config f env) (call : Call f env) (c : Client f k) (n : ℕ)
      (attempt : ℤ) (s : State f env) (p : ℕ) (t : ℤ)
      → c.rate_limiter ≡ none
      → (key == key_func call.req) ≡ false
      → s.limiter_registry ≡ registry_for c
      → (do_with_retry f env config call (suc n) attempt s
          ≡ (fault, record s { world = (env.now s.world).1 }))
        × (limiter_allow f env
              (registry_for (record c { rate_limiter = some p }))
              s.rate_limiter
              s.limiters
              call.req
              t
            ≡ (let (bucket, granted) = Limiter.allow (s.limiters p) t in
                some (update s.limiters p bucket, granted, "default")))
  unfolding do_with_retry attempt_once pass_limiter continue_by
  do_with_retry-unregistered env config call c n attempt s p t h other same =
      let read = env.now s.world in
      let asked = record s { world = read.1 } in
      (
        ap
              (λ r.
                continue_by f env config call
                  (λ s'. do_with_retry f env config call n (add64 attempt (pos 1)) s')
                  (pass_limiter f env config call attempt
                    (limiter_allow f env r s.rate_limiter s.limiters call.req read.0) asked))
              same
            ∙ ap
                (λ o.
                  continue_by f env config call
                    (λ s'. do_with_retry f env config call n (add64 attempt (pos 1)) s')
                    (pass_limiter f env config call attempt o asked))
                (limiter_allow-nil env call.req other s.limiters read.0 c s.rate_limiter h),
        limiter_allow-default env call.req other s.limiters t (record c { rate_limiter = some p })
            s.rate_limiter p refl,
      )
