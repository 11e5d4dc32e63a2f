-- ===== src/HttpCache/Examples.antt =====
-- The theorem on forbidden responses, at a concrete response.
use klayengo.Prelude.{Option, none, some, [], ◌∷◌, String}
use klayengo.Prelude.Int.{ℤ, pos}
use klayengo.Http.{Response}
use klayengo.HttpCache.{Layout, create_enhanced_cache_entry, CacheEntry}

abbrev pub secret : Response
secret = record {
  status_code = pos 200;
  header = ("Cache-Control", "max-age=60, no-store") ∷ [];
  body = none;
  request_method = some "GET";
}

abbrev pub no_time : Layout → String → Option ℤ
no_time layout text = none

abbrev made : CacheEntry
made = create_enhanced_cache_entry no_time secret (7 ∷ []) (pos 5)
