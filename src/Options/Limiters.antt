-- ===== src/Options/Limiters.antt =====
-- The options for the limiters of keys, in either order.
use text.Mathlib.Text.{◌==◌}
use text.Mathlib.TextPositions.{eq_refl}
use klayengo.Prelude.{
  ◌≡◌, if◌then◌else◌, String, Option, none, some, [], ◌∷◌, arith, Option-cases, inl, inr,
}
use klayengo.Prelude.Assoc.{lookup, insert}
use klayengo.Http.{Request}
use klayengo.Backoff.{Float}
use klayengo.Registry.{
  LimiterRef, new_rate_limiter_registry, register_limiter, or_fallback, get_limiter,
}
use klayengo.Options.{Kinds, Client, apply_all}
use klayengo.Options.With.{limiter_of, with_limiter_for, with_limiter_key_func}

module _ (f : Float) (k : Kinds) where
  -- The limiter that the client's registry has for a request, with its key.
  abbrev pub decided : Option (Client f k) → Request → Option (LimiterRef × String)
  decided none req = none
  decided (some c) req = elim c.limiter_registry [ none ↦ none | some r ↦ some (get_limiter r req) ]

  module _ (c : Client f k) (key : String) (limiter : LimiterRef) (key_func : Request → String)
      (req : Request) where
    -- The order of the two options decides, for every client and request: `WithLimiterKeyFunc` after
    -- `WithLimiterFor` forgets the limiter of the key, so that the client's rate limiter is asked for
    -- every request; before it, the limiter is asked for the requests with its key.
    pub limiter_for-key_func :
        (decided
            (apply_all f k
              (some c)
              (with_limiter_for f k key limiter ∷ with_limiter_key_func f k (some key_func) ∷ []))
            req
          ≡ some (or_fallback none (limiter_of f k c.rate_limiter) (key_func req)))
        × (decided
              (apply_all f k
                (some c)
                (with_limiter_key_func f k (some key_func) ∷ with_limiter_for f k key limiter ∷ []))
              req
            ≡ some (
                if key == key_func req
                then (limiter, key_func req)
                else or_fallback none (limiter_of f k c.rate_limiter) (key_func req)))
    unfolding apply_all with_limiter_for with_limiter_key_func get_limiter new_rate_limiter_registry
        register_limiter lookup or_fallback insert
    limiter_for-key_func = elim (Option-cases c.limiter_registry) [
      | inl h ↦ (ground (arith, h), ground (arith, h, eq_refl key))
      | inr (r, h) ↦ (ground (arith, h), ground (arith, h, eq_refl key))
    ]
