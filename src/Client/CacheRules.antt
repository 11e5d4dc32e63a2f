-- ===== src/Client/CacheRules.antt =====
-- Which requests are cached, under which key and how long: the functions of cache.go on requests.
-- The value of the context under `CacheControlKey` is the request's `cache_control`.
use text.Mathlib.Text.{◌==◌}
use Prim.Native.String.{◌++◌}
use klayengo.Prelude.{Bool, true, false, if◌then◌else◌, String, none, some}
use klayengo.Prelude.Int.{ℤ, pos, ltb_ℤ}
use klayengo.Http.{Request}

unfoldable pub default_cache_key_func : Request → String
default_cache_key_func req = elim req.url [
  | none ↦ req.method ++ ":"
  | some u ↦ req.method ++ ":" ++ u.text
]

unfoldable pub default_cache_condition : Request → Bool
default_cache_condition req = req.method == "GET"

-- With whether the client has a cache, and its cache condition.
unfoldable pub should_cache_request : Bool → (Request → Bool) → Request → Bool
should_cache_request false condition req = false
should_cache_request true condition req = elim req.cache_control [
  | none ↦ condition req
  | some control ↦ control.enabled
]

-- With the client's `cacheTTL`.
unfoldable pub get_cache_ttl_for_request : ℤ → Request → ℤ
get_cache_ttl_for_request cache_ttl req = elim req.cache_control [
  | none ↦ cache_ttl
  | some control ↦ if ltb_ℤ (pos 0) control.ttl then control.ttl else cache_ttl
]

unfoldable pub with_context_cache_enabled : Request → Request
with_context_cache_enabled req = record req {
  cache_control = some (record { enabled = true; ttl = pos 0 });
}

unfoldable pub with_context_cache_disabled : Request → Request
with_context_cache_disabled req = record req {
  cache_control = some (record { enabled = false; ttl = pos 0 });
}

unfoldable pub with_context_cache_ttl : ℤ → Request → Request
with_context_cache_ttl ttl req = record req {
  cache_control = some (record { enabled = true; ttl = ttl });
}
