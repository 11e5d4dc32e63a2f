-- ===== src/Registry.antt =====
-- The registry of rate limiters of rate_limiter_registry.go. Limiters are shared by pointer, so they
-- stand in a store and the registry holds references; the limiters are token buckets (RateLimiter).
-- A value of the interface `Limiter` may be nil, or hold a nil *RateLimiter, which is not nil.
pub mod Lookup
use text.Mathlib.Text.{◌==◌}
use Prim.Native.String.{◌++◌}
use klayengo.Prelude.{
  ℕ, Bool, true, false, not, if◌then◌else◌, String, Option, none, some, List, [], ◌==◌ as nat_eq,
}
use klayengo.Prelude.Int.{ℤ}
use klayengo.Prelude.Assoc.{lookup, insert}
use klayengo.Http.{Request, Url}
use klayengo.Limiter.{RateLimiter}
use klayengo.Limiter

pub data LimiterRef : Type 0 where
  nil_limiter typed_nil : LimiterRef
  limiter_at : ℕ → LimiterRef

-- Where the limiters live.
abbrev pub LimiterStore : Type 0
LimiterStore = ℕ → RateLimiter

unfoldable pub update : LimiterStore → ℕ → RateLimiter → LimiterStore
update store p rl q = if nat_eq q p then rl else store q

-- `none` for a nil key function.
pub record RateLimiterRegistry : Type 0 where
  pub limiters : List (String × LimiterRef)
  pub key_func : Option (Request → String)
  pub fallback : LimiterRef

unfoldable pub new_rate_limiter_registry :
    Option (Request → String) → LimiterRef → RateLimiterRegistry
new_rate_limiter_registry key_func fallback = record {
  limiters = [];
  key_func = key_func;
  fallback = fallback;
}

unfoldable pub register_limiter : RateLimiterRegistry → String → LimiterRef → RateLimiterRegistry
unfolding insert
register_limiter r key limiter = record r { limiters = insert key limiter r.limiters }

unfoldable pub or_fallback : Option LimiterRef → LimiterRef → String → LimiterRef × String
or_fallback (some limiter) fallback key = (limiter, key)
or_fallback none nil_limiter key = (nil_limiter, key)
or_fallback none typed_nil key = (typed_nil, "default")
or_fallback none (limiter_at p) key = (limiter_at p, "default")

get_limiter_by : Option (Request → String) → RateLimiterRegistry → Request → LimiterRef × String
unfolding or_fallback lookup
get_limiter_by none r req = (r.fallback, "default")
get_limiter_by (some key_func) r req =
    or_fallback (lookup (key_func req) r.limiters) r.fallback (key_func req)

unfoldable pub get_limiter : RateLimiterRegistry → Request → LimiterRef × String
unfolding get_limiter_by
get_limiter r req = get_limiter_by r.key_func r req

-- A call of `Limiter.Allow` through a reference: a nil *RateLimiter is a fault, `none`.
unfoldable pub allow_ref : LimiterRef → LimiterStore → ℤ → Option (LimiterStore × Bool)
unfolding update
allow_ref nil_limiter store now = some (store, true)
allow_ref typed_nil store now = none
allow_ref (limiter_at p) store now =
    let (rl, granted) = Limiter.allow (store p) now in some (update store p rl, granted)

unfoldable pub allow_with :
    LimiterRef × String → LimiterStore → ℤ → Option (LimiterStore × Bool × String)
unfolding allow_ref
allow_with (limiter, key) store now = elim (allow_ref limiter store now) [
  | none ↦ none
  | some (store', granted) ↦ some (store', granted, key)
]

-- `Allow`: the store, the answer and the key.
unfoldable pub allow :
    RateLimiterRegistry → LimiterStore → Request → ℤ → Option (LimiterStore × Bool × String)
unfolding get_limiter allow_with
allow r store req now = allow_with (get_limiter r req) store now

-- The key functions, of a request with the URL `u`; a nil URL is a fault.
unfoldable pub default_host_key_func : Url → Request → String
default_host_key_func u req =
    if not (u.host == "")
    then "host:" ++ u.host
    else if not (req.host == "")
    then "host:" ++ req.host
    else "host:unknown"

unfoldable pub default_route_key_func : Url → Request → String
default_route_key_func u req = "route:" ++ req.method ++ ":" ++ u.path

unfoldable pub default_host_route_key_func : Url → Request → String
default_host_route_key_func u req =
    let host = if u.host == "" then req.host else u.host in
    "host_route:" ++ (if host == "" then "unknown" else host) ++ ":" ++ req.method ++ ":" ++ u.path
