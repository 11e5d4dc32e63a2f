-- ===== src/Registry/Lookup.antt =====
-- Which limiter decides on a request.
use text.Mathlib.Text.{◌==◌}
use klayengo.Prelude.{◌≡◌, sym, subst, if◌then◌else◌, String, some, arith}
use klayengo.Prelude.Assoc.{lookup-insert}
use klayengo.Http.{Request}
use klayengo.Registry.{
  LimiterRef, RateLimiterRegistry, register_limiter, or_fallback, get_limiter_by, get_limiter,
}

module _ (r : RateLimiterRegistry) (key_func : Request → String) (req : Request) where
  get_limiter_by-register :
      (k : String) (limiter : LimiterRef)
      → get_limiter_by (some key_func) (register_limiter r k limiter) req ≡ (
          if k == key_func req
          then (limiter, key_func req)
          else get_limiter_by (some key_func) r req)
  unfolding register_limiter get_limiter_by or_fallback
  get_limiter_by-register k limiter =
      ground (arith, lookup-insert k (key_func req) limiter r.limiters)

  -- With a key function, a request is decided by the limiter that was registered last for its key,
  -- and registering one for another key changes nothing.
  pub get_limiter-register_limiter :
      (k : String) (limiter : LimiterRef)
      → r.key_func ≡ some key_func
      → get_limiter (register_limiter r k limiter) req
        ≡ (if k == key_func req then (limiter, key_func req) else get_limiter r req)
  unfolding register_limiter get_limiter
  get_limiter-register_limiter k limiter h =
      let r' = register_limiter r k limiter in
      subst
        (λ o.
          get_limiter_by o r' req
          ≡ (if k == key_func req then (limiter, key_func req) else get_limiter_by o r req))
        (sym h) (get_limiter_by-register k limiter)
