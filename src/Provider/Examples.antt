-- ===== src/Provider/Examples.antt =====
-- The theorems on the provider with HTTP semantics, over a new in-memory cache.
use klayengo.Prelude.{ℕ, ◌≡◌, refl, none, some, [], ◌∷◌, String, false, arith}
use klayengo.Prelude.Int.{pos, ◌+ℤ◌, ◌-ℤ◌}
use klayengo.Prelude.Assoc.{lookup, insert}
use klayengo.Text.{split, text_eq, trim_space}
use klayengo.Http.{Response, header_get}
use klayengo.HttpCache.Directives.{has_part}
use klayengo.HttpCache.{CacheEntry}
use klayengo.HttpCache.Examples.{secret, no_time}
use klayengo.Cache.{InMemoryCache, new_in_memory_cache, get_shard, set_entry, set_new, write}
use klayengo.Cache.Laws.{entry_at, find}
use klayengo.Provider.{swr, semantic_get, semantic_set, SetTimes, reader}
use klayengo.Provider.Stale.{in_memory, semantic_get_expired}
use klayengo.Provider.Stored.{semantic_get-semantic_set_forbidden}

abbrev hash : String → ℕ
hash key = 35

-- It expires at 20, with a stale window up to 90.
abbrev entry : CacheEntry
entry = record {
  response = none;
  body = 7 ∷ [];
  status_code = pos 200;
  header = [];
  expires_at = pos 20;
  etag = "";
  last_modified = none;
  max_age = some (pos 10);
  stale_at = some (pos 90);
  is_stale = false;
}

abbrev filled : InMemoryCache
filled = set_new hash new_in_memory_cache "a" entry (pos 15) (pos 5)

filled-find : find hash filled "a" ≡ some entry
unfolding entry_at set_new write set_entry new_in_memory_cache get_shard lookup insert ◌+ℤ◌
filled-find = refl

semantic_get_expired_example :
    (semantic_get (in_memory hash) swr filled "a" (pos 30) (pos 31)).1 ≡ none
semantic_get_expired_example =
    semantic_get_expired hash swr filled "a" entry (pos 30) (pos 31) filled-find (omega arith)

-- A response with no-store and a body, which is kept for the default of 50.
abbrev private_page : Response
private_page = record secret { body = reader (7 ∷ []) }

abbrev times : SetTimes
times = record { received_at = pos 1; default_at = pos 2; until_at = pos 3; set_at = pos 4 }

abbrev kept : InMemoryCache
kept =
    (semantic_set (in_memory hash) no_time (pos 50) new_in_memory_cache "a" private_page (pos 0)
      times).0

semantic_get-semantic_set_forbidden_example :
    (r : Response) × ((semantic_get (in_memory hash) swr kept "a" (pos 40) (pos 41)).1 ≡ some r)
    × (r.status_code ≡ pos 200)
    × (r.body ≡ reader (7 ∷ []))
unfolding new_in_memory_cache has_part split header_get text_eq trim_space ◌-ℤ◌ ◌+ℤ◌ lookup
semantic_get-semantic_set_forbidden_example =
    semantic_get-semantic_set_forbidden hash no_time new_in_memory_cache
      (record { some_shard = omega arith; counted = refl }) "a" private_page (7 ∷ []) refl (pos 50)
      (pos 0) times refl (omega arith) swr (pos 40) (pos 41) (omega arith) (omega arith)
